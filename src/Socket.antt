-- ===== src/Socket.antt =====
-- socket.h and socket.cpp: the wrapper of a descriptor. What the system answers is an argument of
-- each operation. `Fds` is the list of the descriptors that the process has open.
pub mod Ownership
pub mod Objects
pub mod World
pub mod Counts
pub mod Balance
pub mod Secure
mod Tests
use libcoda_net.Base.{
  ℕ, Bool, true, false, Option, none, some, List, [], ◌∷◌, ◌==◌, if◌then◌else◌, Bytes, length,
}

-- `none` is INVALID.
pub record Socket : Type 0 where
  pub sock : Option ℕ
  pub non_blocking : Bool
  pub secure : Bool

abbrev pub Fds : Type 0
Fds = List ℕ

-- `socket::socket()`.
abbrev pub fresh : Socket
fresh = record { sock = none; non_blocking = false; secure = false }

abbrev pub is_some {ℓ} : {A : Type ℓ} → Option A → Bool
is_some none = false
is_some (some a) = true

abbrev pub is_valid : Socket → Bool
is_valid s = is_some s.sock

-- The system's `close` of one descriptor.
unfoldable pub closesocket : ℕ → Fds → Fds
closesocket fd [] = []
closesocket fd (x ∷ fds) = if x == fd then fds else x ∷ closesocket fd fds

unfoldable pub release : Option ℕ → Fds → Fds
release none fds = fds
release (some fd) fds = closesocket fd fds

-- A secure layer that is shut down stays attached.
unfoldable pub close : Socket → Fds → Socket × Fds
close s fds = (record s { sock = none; non_blocking = false }, release s.sock fds)

-- Move assignment of two different objects: the target, the source, and the descriptors.
unfoldable pub move_assign : Socket → Socket → Fds → Socket × Socket × Fds
move_assign s other fds =
    (other, record other { sock = none; non_blocking = false; secure = false }, (close s fds).1)

-- What `send` and `recv` return: `none` is a negative status.
unfoldable pub send : (Bytes → Option ℕ) → (Bytes → Option ℕ) → Socket → Bytes → Option ℕ
send raw_send ssl_send s [] = if is_valid s then some 0 else none
send raw_send ssl_send s (c ∷ bytes) =
    if is_valid s then (if s.secure then ssl_send (c ∷ bytes) else raw_send (c ∷ bytes)) else none

-- The answer of the system or the secure layer: an error, or bytes, of which there are none at the
-- end of the stream.
unfoldable pub received : (Bytes → Bytes) → Option Bytes → Option ℕ × Bytes
received on_recv none = (none, [])
received on_recv (some []) = (some 0, [])
received on_recv (some (c ∷ bytes)) = (some (length (c ∷ bytes)), on_recv (c ∷ bytes))

-- `recv`: its status, and what is in the buffer behind it.
unfoldable pub recv : (Bytes → Bytes) → Option Bytes → Socket → Bytes → Option ℕ × Bytes
unfolding received
recv on_recv answer s buffer = if is_valid s then received on_recv answer else (none, buffer)

-- What becomes of one address in the loop of `connect`.
pub data Attempt : Type 0 where
  no_socket : Attempt
  refused : ℕ → Attempt
  connected : ℕ → Attempt

unfoldable pub connect_loop : List Attempt → Fds → Option ℕ × Fds
connect_loop [] fds = (none, fds)
connect_loop (no_socket ∷ ps) fds = connect_loop ps fds
connect_loop (refused fd ∷ ps) fds = connect_loop ps (closesocket fd (fd ∷ fds))
connect_loop (connected fd ∷ ps) fds = (some fd, fd ∷ fds)

-- A call returns, or throws a `socket_exception`.
pub data Returns : Type 0 where
  returned : Bool → Returns
  thrown : Returns

-- `attach_ok` is whether the `attach` of a secure layer returns; Socket/Secure has the layer.
unfoldable pub attach : Bool → Socket → Returns
attach attach_ok s =
    if s.secure then (if attach_ok then returned true else thrown) else returned true

-- `connect` behind its loop. The socket was closed before it, so that an INVALID `sock_` stays so.
connect_found : Bool → Socket → Option ℕ × Fds → Returns × Socket × Fds
connect_found attach_ok s (none, fds) = (returned false, record s { sock = none }, fds)
connect_found attach_ok s (some fd, fds) = (attach attach_ok s, record s { sock = some fd }, fds)

close_valid : Socket → Fds → Socket × Fds
close_valid s fds = if is_valid s then close s fds else (s, fds)

-- The addresses are `none` where `getaddrinfo` fails.
unfoldable pub connect : Option (List Attempt) → Bool → Socket → Fds → Returns × Socket × Fds
unfolding connect_found close_valid
connect none attach_ok s fds = (returned false, s, fds)
connect (some ps) attach_ok s fds =
    let closed = close_valid s fds in connect_found attach_ok closed.0 (connect_loop ps closed.1)

-- What becomes of one address in the loop of `listen`.
pub data Binding : Type 0 where
  no_socket : Binding
  no_option : ℕ → Binding
  not_bound : ℕ → Binding
  bound : ℕ → Binding

-- `none` where no address is bound.
unfoldable pub bind_loop : List Binding → Fds → Option ℕ × Fds
bind_loop [] fds = (none, fds)
bind_loop (no_socket ∷ bs) fds = bind_loop bs fds
bind_loop (no_option fd ∷ bs) fds = bind_loop bs (closesocket fd (fd ∷ fds))
bind_loop (not_bound fd ∷ bs) fds = bind_loop bs (closesocket fd (fd ∷ fds))
bind_loop (bound fd ∷ bs) fds = (some fd, fd ∷ fds)

-- `listen` behind its loop; `listen_ok` is the answer of the system's `listen`.
unfoldable pub listen_bound : Bool → Bool → Socket → Option ℕ × Fds → Returns × Socket × Fds
listen_bound listen_ok attach_ok s (none, fds) = (returned false, s, fds)
listen_bound listen_ok attach_ok s (some fd, fds) =
    (if listen_ok then attach attach_ok s else returned false, record s { sock = some fd }, fds)

-- The addresses are `none` where `getaddrinfo` fails or gives no result.
unfoldable pub listen : Option (List Binding) → Bool → Bool → Socket → Fds → Returns × Socket × Fds
unfolding listen_bound
listen none listen_ok attach_ok s fds = (thrown, s, fds)
listen (some bs) listen_ok attach_ok s fds = listen_bound listen_ok attach_ok s (bind_loop bs fds)

-- `fcntl_ok` is whether the flags can be read.
unfoldable pub set_non_blocking : Bool → Bool → Socket → Socket
set_non_blocking fcntl_ok b s = if fcntl_ok then record s { non_blocking = b } else s

-- `openssl` is whether the library is built with it.
unfoldable pub set_secure : Bool → Bool → Socket → Socket
set_secure openssl true s = if openssl then record s { secure = true } else s
set_secure openssl false s = record s { secure = false }
