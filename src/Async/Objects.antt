-- ===== src/Async/Objects.antt =====
-- `async::default_client` as an object: a buffered socket and the thread that it started. A thread that
-- was not joined ends the program where its object is replaced or destroyed, also when it has run to
-- its end.
use libcoda_net.Base.{Bool, true, false, Option, none, some, List, if◌then◌else◌, ◌≡◌, ◌∙◌, ap, sym}
use libcoda_net.Socket.{Attempt, Returns, returned, thrown}
use libcoda_net.Buffered.{Buffered}
use libcoda_net.Buffered.Connection.{connect}
use libcoda_net.Buffered.Objects.{construct, move_assign, move_construct}

pub record DefaultClient : Type 0 where
  pub socket : Buffered
  -- A thread was started and not joined.
  pub has_thread : Bool

-- What a call does: it returns, calls a null listener, or ends the program. Where it would do both of
-- the latter, the null listener is named.
pub data Outcome {ℓ} (A : Type ℓ) : Type ℓ where
  done : A → Outcome A
  null_call : Outcome A
  terminated : Outcome A

-- `on_connect`, which replaces the thread.
unfoldable pub on_connect : DefaultClient → Outcome DefaultClient
on_connect c = if c.has_thread then terminated else done (record c { has_thread = true })

unfoldable pub after_connect :
    Bool → Option (Returns × Buffered) → Outcome (Returns × DefaultClient)
unfolding on_connect
after_connect thread none = null_call
after_connect thread (some (returned true, b)) =
    elim (on_connect (record { socket = b; has_thread = thread })) [
      | done c ↦ done (returned true, c)
      | null_call ↦ null_call
      | terminated ↦ terminated
    ]
after_connect thread (some (returned false, b)) =
    done (returned false, record { socket = b; has_thread = thread })
after_connect thread (some (thrown, b)) = done (thrown, record { socket = b; has_thread = thread })

-- `connect` of an object of this class: the virtual handler is `on_connect`.
unfoldable pub connect_client :
    Option (List Attempt) → Bool → DefaultClient → Outcome (Returns × DefaultClient)
unfolding after_connect
connect_client addresses attach_ok c =
    after_connect c.has_thread (connect addresses attach_ok c.socket)

-- `default_client(host, port)`: the constructor of the base class calls no `on_connect`.
unfoldable pub construct_client : Option (List Attempt) → Bool → Buffered → Option DefaultClient
unfolding construct
construct_client addresses attach_ok new = elim ((construct addresses attach_ok new).0) [
  | none ↦ none
  | some b ↦ some (record { socket = b; has_thread = false })
]

-- The move constructor: the new object, and the other one. The thread goes on with the other object.
unfoldable pub move_client : DefaultClient → DefaultClient × DefaultClient
unfolding move_construct
move_client c =
    let (b, b') = move_construct c.socket in
    (record c { socket = b }, record { socket = b'; has_thread = false })

-- Move assignment: the target and the other object.
unfoldable pub assign_client :
    DefaultClient → DefaultClient → Outcome (DefaultClient × DefaultClient)
unfolding move_assign
assign_client c other = elim (move_assign c.socket other.socket) [
  | none ↦ null_call
  | some (old, target, source) ↦
      if c.has_thread
      then terminated
      else done (record other { socket = target }, record { socket = source; has_thread = false })
]

connected-thread :
    (thread : Bool) (o : Option (Returns × Buffered)) (c : DefaultClient)
    → after_connect thread o ≡ done (returned true, c)
    → c.has_thread ≡ true
unfolding after_connect on_connect
connected-thread thread none c h = cc h
connected-thread true (some (returned true, b)) c h = cc h
connected-thread false (some (returned true, b)) c h =
    let same : record { socket = b; has_thread = true } ≡ c = cc h in
    sym (ap (λ x. x.has_thread) same)
connected-thread thread (some (returned false, b)) c h = cc h
connected-thread thread (some (thrown, b)) c h = cc h

-- A client that connects, with success, ends the program when it connects with success once more,
-- whatever it did and whatever became of its thread in between, unless it was destroyed or moved from.
pub connect_again :
    (addresses later : Option (List Attempt)) (attach_ok later_ok : Bool) (c c' : DefaultClient)
    (b b' : Buffered)
    → connect_client addresses attach_ok c ≡ done (returned true, c')
    → connect later later_ok b ≡ some (returned true, b')
    → connect_client later later_ok (record c' { socket = b }) ≡ terminated
unfolding connect_client after_connect on_connect
connect_again addresses later attach_ok later_ok c c' b b' h g =
    ap (after_connect c'.has_thread) g
    ∙ ap (λ t. after_connect t (some (returned true, b')))
        (connected-thread c.has_thread (connect addresses attach_ok c.socket) c' h)
