-- ===== src/Socket/Objects.antt =====
-- The constructors, moves and operators of `socket`, and the address of its peer.
use libcoda_net.Base.{
  ℕ, ◌+◌, ◌*◌, Bool, true, false, not, Option, none, some, List, ◌∷◌, ◌==◌, if◌then◌else◌, Bytes,
  ascii,
}
use libcoda_net.Socket.{
  Socket, Fds, fresh, is_valid, Attempt, Returns, returned, thrown, connect, close, set_secure,
  send, recv,
}

-- `socket(sock, addr)`.
abbrev pub of_descriptor : ℕ → Socket
of_descriptor fd = record { sock = some fd; non_blocking = false; secure = false }

-- `socket(socket &&)`: the new object, and the other one, which keeps its mode.
unfoldable pub move_construct : Socket → Socket × Socket
move_construct other = (other, record other { sock = none; secure = false })

-- Behind the call of `connect` in a constructor: an exception leaves no object, and no destructor
-- runs.
unfoldable pub constructed : Returns × Socket × Fds → Option Socket × Fds
constructed (returned b, s, fds) = (some s, fds)
constructed (thrown, s, fds) = (none, fds)

-- `socket(host, port, secure)`, which does not look at what `connect` returns.
unfoldable pub construct : Bool → Bool → Option (List Attempt) → Bool → Fds → Option Socket × Fds
unfolding constructed connect set_secure
construct openssl secure addresses attach_ok fds =
    constructed (connect addresses attach_ok (set_secure openssl secure fresh) fds)

-- `~socket`.
unfoldable pub destroy : Socket → Fds → Fds
unfolding close
destroy s fds = (close s fds).1

-- `operator==`.
unfoldable pub same_socket : Socket → Socket → Bool
same_socket s other = elim (s.sock) [
  | none ↦ not (is_valid other)
  | some fd ↦ elim (other.sock) [ none ↦ false | some fd' ↦ fd == fd' ]
]

-- `operator<<`: whether it returns. A call that sends a part returns like one that sends all.
unfoldable pub insert : (Bytes → Option ℕ) → (Bytes → Option ℕ) → Socket → Bytes → Bool
unfolding send
insert raw_send ssl_send s bytes = elim (send raw_send ssl_send s bytes) [
  | none ↦ false
  | some n ↦ true
]

-- `operator>>`: whether it returns, and the buffer.
unfoldable pub extract : (Bytes → Bytes) → Option Bytes → Socket → Bytes → Bool × Bytes
unfolding recv
extract on_recv answer s buffer =
    let (status, left) = recv on_recv answer s buffer in
    (elim status [ none ↦ false | some n ↦ true ], left)

-- `accept`, which leaves the object as it is: the descriptor, if the system has one.
unfoldable pub accept : Option ℕ → Fds → Option ℕ × Fds
accept none fds = (none, fds)
accept (some fd) fds = (some fd, fd ∷ fds)

pub data Family : Type 0 where
  inet inet6 unspecified : Family

-- A `sockaddr_storage`: the port is two bytes in the order of the network.
pub record Address : Type 0 where
  pub family : Family
  pub port_bytes : ℕ × ℕ
  pub host : Bytes

-- `none` is INVALID.
unfoldable pub port : Socket → Address → Option ℕ
port s a = if is_valid s then some (a.port_bytes.0 * 256 + a.port_bytes.1) else none

-- `inet_ntoa` and `inet_ntop` are arguments.
unfoldable pub ip : (Bytes → Bytes) → (Bytes → Bytes) → Socket → Address → Bytes
ip ntoa ntop s a = if not (is_valid s) then ascii "invalid" else elim (a.family) [
  | inet ↦ ntoa a.host
  | inet6 ↦ ntop a.host
  | unspecified ↦ ascii "unknown"
]
