-- ===== src/Server.antt =====
-- socket_server.cpp and sync/: starting and stopping, the pause between polls, and the two ways of
-- polling. A connection is seen through the interface `Connection`.
pub mod Start
pub mod Sockets
pub mod Serving
mod Survivors
pub mod Covering
pub mod Tracking
pub mod Buffers
pub mod Arrivals
pub mod Finding
pub mod Reading
pub mod Delivery
pub mod Accept
pub mod Pause
pub mod Select
pub mod Fairness
pub mod Limit
pub mod Epoll
pub mod Watching
pub mod Background
pub mod Sync
mod Tests
use libcoda_net.Base.{ℕ, Bool, List, [], ◌∷◌, ◌==◌, if◌then◌else◌, true, false}

-- What a server asks of a connection: `raw_socket`, `is_valid`, `has_output`, and the two transfers.
pub record Connection : Type 1 where
  pub Conn : Type 0
  pub raw_socket : Conn → ℕ
  pub is_valid : Conn → Bool
  pub has_output : Conn → Bool
  pub read_to_buffer : Conn → Bool × Conn
  pub write_from_buffer : Conn → Bool × Conn

-- An `fd_set`, and FD_ISSET and FD_CLR; FD_SET puts a descriptor in front. An `fd_set` has room for the
-- descriptors below FD_SETSIZE, which the code does not test: the model is of descriptors below it.
abbrev pub FdSet : Type 0
FdSet = List ℕ

unfoldable pub is_set : ℕ → FdSet → Bool
is_set fd [] = false
is_set fd (x ∷ s) = if x == fd then true else is_set fd s

unfoldable pub clear : ℕ → FdSet → FdSet
clear fd [] = []
clear fd (x ∷ s) = if x == fd then clear fd s else x ∷ clear fd s
