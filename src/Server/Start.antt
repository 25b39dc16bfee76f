-- ===== src/Server/Start.antt =====
-- `socket_server`: starting, listening and stopping. The loop `run` and the listeners' calls are left
-- out; `on_start` of a subclass is an argument.
use libcoda_net.Base.{ℕ, Bool, true, false, ◌&&◌, Option, some, List, if◌then◌else◌, ◌≡◌, refl}
use libcoda_net.Socket
use libcoda_net.Socket.{Socket, Fds, Binding, bind_loop, returned}

pub record Server : Type 0 where
  pub socket : Socket
  pub has_factory : Bool
  pub running : Bool
  pub fds : Fds

abbrev pub is_valid : Server → Bool
is_valid s = Socket.is_valid s.socket && s.has_factory

-- How `start` and `start_in_background` end: the loop runs, or an exception is thrown.
pub data Started : Type 0 where
  started already_started unable_to_listen bad_address : Started

after_listen : (Socket → Socket) → Server → Socket.Returns × Socket × Fds → Started × Server
after_listen on_start s (returned true, socket, fds) =
    (started, record s { socket = on_start socket; fds = fds; running = true })
after_listen on_start s (returned false, socket, fds) =
    (unable_to_listen, record s { socket = socket; fds = fds })
after_listen on_start s (Socket.thrown, socket, fds) =
    (bad_address, record s { socket = socket; fds = fds })

unfoldable pub start :
    (Socket → Socket) → Option (List Binding) → Bool → Bool → Server → Started × Server
unfolding after_listen
start on_start addresses listen_ok attach_ok s =
    if is_valid s
    then (already_started, s)
    else after_listen on_start s (Socket.listen addresses listen_ok attach_ok s.socket s.fds)

-- `stop`, with the notification and the join of the thread left out.
unfoldable pub stop : Server → Server
stop s =
    let (socket, fds) = Socket.close s.socket s.fds in
    record s { socket = socket; fds = fds; running = false }

-- A server that could bind an address and not listen on it says so, and refuses every later start as
-- already started, though it never ran; only `stop` makes it startable again.
pub start_after_failure :
    (on_start : Socket → Socket) (bs : List Binding) (later : Option (List Binding))
    (attach_ok listen_ok attach_ok' : Bool) (s : Server) (fd : ℕ)
    → s.has_factory ≡ true
    → is_valid s ≡ false
    → (bind_loop bs s.fds).0 ≡ some fd
    → let failed = start on_start (some bs) false attach_ok s in
      (failed.0 ≡ unable_to_listen)
      × (failed.1.running ≡ s.running)
      × (start on_start later listen_ok attach_ok' failed.1 ≡ (already_started, failed.1))
      × (is_valid (stop failed.1) ≡ false)
unfolding start after_listen stop Socket.listen Socket.listen_bound Socket.close
start_after_failure on_start bs later attach_ok listen_ok attach_ok' s fd f v b =
    rw (v, start) (rw (b, Socket.listen_bound) (refl, refl, rw f refl, refl))
