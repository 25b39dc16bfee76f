-- ===== src/Server/Arrivals.antt =====
-- `sync::server::on_accept` with the default factory: the connection that is made of a descriptor, and
-- its place among `sockets_`, which is the poller's `accept_new`.
use libcoda_net.Base.{
  ℕ, Bool, true, false, ◌&&◌, Option, none, some, List, [], ◌∷◌, if◌then◌else◌, ◌≡◌, refl, arith,
  Bytes,
}
use libcoda_net.Socket.{Fds, is_valid}
use libcoda_net.Buffered.{Buffered, connected, notify, call_all, ◌>>=◌}
use libcoda_net.Buffered.Listeners.{add_listener, find}
use libcoda_net.Server.Accept.{Peer, buffered_socket, create_socket, on_accept}
use libcoda_net.Server.Select.{insert}
use libcoda_net.Server.Epoll.{find_socket}
use libcoda_net.Server.Tracking.{IsArrival}
use libcoda_net.Server.Buffers.{Conn, buffers, raw_socket}

-- `add_socket`, but for the map: the new cleanup listener, whose number is `cleanup`.
unfoldable pub add_cleanup : ℕ → Buffered → Buffered
unfolding add_listener
add_cleanup cleanup b = if is_valid b.socket then add_listener (some cleanup) b else b

-- `on_accept`.
unfoldable pub arrive : ℕ → (ℕ → Buffered) → ℕ → Option Buffered
unfolding on_accept add_cleanup
arrive cleanup create fd = on_accept create fd >>= (λ b. some (add_cleanup cleanup b))

-- What the default factory, its hook and the cleanup listener leave.
abbrev pub newcomer : ℕ → Bool → Bool → Fds → Peer → ℕ → Buffered
newcomer cleanup server_non_blocking fcntl_ok fds peer fd = record {
  socket = record {
    sock = some fd;
    non_blocking = server_non_blocking && fcntl_ok;
    secure = false;
  };
  in_buffer = [];
  out_buffer = [];
  listeners = some cleanup ∷ [];
  fds = fds;
  incoming = peer.incoming;
  outgoing = peer.outgoing;
  wire = [];
  calls = (none, connected) ∷ [];
}

pub arrive-newcomer :
    (cleanup : ℕ) (server_non_blocking fcntl_ok : Bool) (fds : Fds) (peer : Peer) (fd : ℕ)
    → arrive cleanup (create_socket server_non_blocking fcntl_ok fds peer) fd
      ≡ some (newcomer cleanup server_non_blocking fcntl_ok fds peer fd)
unfolding arrive on_accept create_socket buffered_socket add_cleanup add_listener notify call_all
    find
arrive-newcomer cleanup true true fds peer fd = refl
arrive-newcomer cleanup true false fds peer fd = refl
arrive-newcomer cleanup false true fds peer fd = refl
arrive-newcomer cleanup false false fds peer fd = refl

-- The connection of a descriptor that `accept` returned.
abbrev pub arrival : ℕ → Bool → Bool → Fds → Peer → ℕ → ℕ × Conn
arrival cleanup server_non_blocking fcntl_ok fds peer fd =
    (fd, (newcomer cleanup server_non_blocking fcntl_ok fds peer fd, (refl, tt)))

pub arrival-IsArrival :
    (filter : Bytes → Bytes) (cleanup : ℕ) (server_non_blocking fcntl_ok : Bool) (fds : Fds)
    (peer : Peer) (fd : ℕ)
    → IsArrival (buffers filter) (some (arrival cleanup server_non_blocking fcntl_ok fds peer fd))
unfolding raw_socket
arrival-IsArrival filter cleanup server_non_blocking fcntl_ok fds peer fd = (refl, refl)

pub find-insert :
    {C : Type 0} (fd : ℕ) (c : C) (cs : List (ℕ × C)) → find_socket fd (insert fd c cs) ≡ some c
unfolding find_socket insert
find-insert fd c [] = ground arith
find-insert fd c ((x, d) ∷ cs) = ground (arith, find-insert fd c cs)
