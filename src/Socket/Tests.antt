-- ===== src/Socket/Tests.antt =====
-- The ownership theorems at concrete answers of the system.
use libcoda_net.Base.{◌+◌, true, false, none, some, [], ◌∷◌, ◌≡◌, refl}
use libcoda_net.Socket.{
  Socket, no_socket, refused, connected, returned, connect, connect_loop, attach, close, release,
  closesocket, fresh,
}
use libcoda_net.Base.{length, ascii}
use libcoda_net.Socket.Objects.{move_construct}
use libcoda_net.Socket.World.{World, Reach, creates, connects, moves, start, later}
use libcoda_net.Socket.Counts.{count, holders}
use libcoda_net.Socket.Balance.{fds-balanced}
use libcoda_net.Socket.Secure
use libcoda_net.Socket.Secure.{
  Secured, Ssl, detached, init, shutdown, assign_layer, construct, reconnect_silent,
}
use libcoda_net.Socket.Secure.Lifetime.{held, layer-held}

abbrev old : Socket
old = record { sock = some 5; non_blocking = true; secure = false }

connect_run :
    connect (some (no_socket ∷ refused 6 ∷ connected 7 ∷ [])) true old (5 ∷ 3 ∷ [])
    ≡ (returned true, record fresh { sock = some 7 }, 7 ∷ 3 ∷ [])
unfolding connect connect_loop attach close closesocket release
connect_run = refl

-- A socket that is connected through a layer.
abbrev secured : Secured
secured = record {
  socket = record fresh { sock = some 5; secure = true };
  layer = record { handle = some 1; context = some 2 };
}

abbrev objects : Ssl
objects = record { handles = 1 ∷ []; contexts = 2 ∷ [] }

reconnect_silent_example :
    let (r, s', fds', o') =
      Secure.connect (some (refused 6 ∷ connected 7 ∷ [])) false secured (5 ∷ []) objects in
    (r ≡ returned true)
    × (s'.socket.sock ≡ some 7)
    × (s'.layer ≡ detached)
    × (Secure.send (λ s. some (length s)) (λ s. some (length s)) s' (ascii "GET") ≡ some 0)
    × (Secure.recv (λ s. s) (some (ascii "ok")) (some (ascii "ok")) s' [] ≡ (some 0, []))
unfolding connect_loop
reconnect_silent_example =
    reconnect_silent (refused 6 ∷ connected 7 ∷ []) 7 false secured (5 ∷ []) objects
      (λ s. some (length s)) (λ s. some (length s)) (λ s. s) (some (ascii "ok")) (some (ascii "ok"))
      (ascii "GET") [] refl refl refl

abbrev nothing : Ssl
nothing = record { handles = []; contexts = [] }

layer-held_example :
    let (ok, l', o') = init (some 2) (some 1) detached (held detached nothing) in
    (o' ≡ held l' nothing)
    × (shutdown l' o' ≡ (detached, nothing))
    × (assign_layer detached secured.layer (held detached (held secured.layer nothing))
        ≡ (secured.layer, detached, held secured.layer nothing))
layer-held_example = layer-held (some 2) (some 1) detached secured.layer nothing

-- Where a context is made and no handle, the constructor throws and nothing holds the context.
construct_leaks : construct (some 2) none nothing ≡ (none, record nothing { contexts = 2 ∷ [] })
unfolding construct
construct_leaks = refl

-- A socket that is made, connected and moved, in a process that has descriptor 3 open.
abbrev moved : World
moved = record { objects = record fresh { sock = some 7 } ∷ fresh ∷ []; fds = 7 ∷ 3 ∷ [] }

reach-moved : Reach (record { objects = []; fds = 3 ∷ [] }) moved
unfolding connect connect_loop attach close closesocket release move_construct
reach-moved =
    later (later (later start creates) (connects (some (refused 6 ∷ connected 7 ∷ [])) true)) moves

fds-balanced_example : count 7 moved.fds ≡ holders 7 moved.objects + count 7 (3 ∷ [])
fds-balanced_example = fds-balanced (3 ∷ []) moved reach-moved 7
