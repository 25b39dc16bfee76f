-- ===== src/Server/Accept.antt =====
-- socket_factory.cpp and `socket_server::on_accept`: what becomes of a descriptor that `accept` returned.
use libcoda_net.Base.{ℕ, Bool, false, Option, some, List, []}
use libcoda_net.Socket
use libcoda_net.Socket.{Fds, Socket}
use libcoda_net.Buffered.{Buffered, Received, connected, notify}

-- What the system will answer about the descriptor.
pub record Peer : Type 0 where
  pub incoming : List Received
  pub outgoing : List (Option ℕ)

-- `buffered_socket(sock, addr)`, which is also the constructor of `async::default_client`.
unfoldable pub buffered_socket : Fds → Peer → ℕ → Buffered
buffered_socket fds peer fd = record {
  socket = record { sock = some fd; non_blocking = false; secure = false };
  in_buffer = [];
  out_buffer = [];
  listeners = [];
  fds = fds;
  incoming = peer.incoming;
  outgoing = peer.outgoing;
  wire = [];
  calls = [];
}

-- `default_socket_factory::create_socket`, by `is_non_blocking` of the server and the answer of `fcntl`.
unfoldable pub create_socket : Bool → Bool → Fds → Peer → ℕ → Buffered
unfolding buffered_socket Socket.set_non_blocking
create_socket server_non_blocking fcntl_ok fds peer fd =
    let b = buffered_socket fds peer fd in
    record b { socket = Socket.set_non_blocking fcntl_ok server_non_blocking b.socket }

-- `on_accept`; `create` is the factory.
unfoldable pub on_accept : (ℕ → Buffered) → ℕ → Option Buffered
unfolding notify
on_accept create fd = notify connected (create fd)
