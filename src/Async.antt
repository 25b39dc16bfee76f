-- ===== src/Async.antt =====
-- async/client.cpp and async/server.cpp: the loops that run in a thread of their own. The loop of the
-- client is on fuel, the number of its rounds.
pub mod Delivery
pub mod Objects
pub mod Threads
pub mod Serial
pub mod Stuck
mod Tests
use libcoda_net.Base.{
  ℕ, zero, suc, Bool, true, false, not, Option, none, some, List, [], ◌∷◌, if◌then◌else◌, Bytes,
}
use libcoda_net.Socket
use libcoda_net.Socket.{is_valid}
use libcoda_net.Buffered
use libcoda_net.Buffered.{Buffered, Received, write_from_buffer, read_to_buffer}

-- `close(); break;`.
unfoldable pub close_client : Option Buffered → Option (Bool × Buffered)
close_client none = none
close_client (some b) = some (false, b)

-- Behind the read: whether the loop goes on. `none` is the call of a null listener.
unfoldable pub after_read : Option (Bool × Buffered) → Option (Bool × Buffered)
unfolding close_client Buffered.close
after_read none = none
after_read (some (true, b)) = some (true, b)
after_read (some (false, b)) = close_client (Buffered.close b)

-- What a round leaves to the loop.
unfoldable pub next_round :
    (Buffered → Option (Bool × Buffered)) → Option (Bool × Buffered) → Option (Bool × Buffered)
next_round next none = none
next_round next (some (true, b)) = next b
next_round next (some (false, b)) = some (true, b)

module _ (filter : Bytes → Bytes) where
  unfoldable pub after_write : Option (Bool × Buffered) → Option (Bool × Buffered)
  unfolding close_client Buffered.close after_read read_to_buffer
  after_write none = none
  after_write (some (true, b)) =
      if is_valid b.socket then after_read (read_to_buffer filter b) else some (false, b)
  after_write (some (false, b)) = close_client (Buffered.close b)

  -- A round of the loop of `default_client::run`: whether the loop goes on, and the object.
  unfoldable pub round : Buffered → Option (Bool × Buffered)
  unfolding write_from_buffer after_write
  round b = if not (is_valid b.socket) then some (false, b) else after_write (write_from_buffer b)

  -- `default_client::run`: whether it came to its end, and the object.
  unfoldable pub run : ℕ → Buffered → Option (Bool × Buffered)
  unfolding round next_round
  run zero b = some (false, b)
  run (suc fuel) b = next_round (run fuel) (round b)

-- `async::server::run`, by what `accept` returns: the connections that are made of them, in order.
unfoldable pub accept_all : {C : Type 0} → (ℕ → C) → Bool → List (Option ℕ) → List C
accept_all create valid [] = []
accept_all create valid (none ∷ answers) = accept_all create valid answers
accept_all create valid (some fd ∷ answers) =
    let more = accept_all create valid answers in if valid then create fd ∷ more else []

unfoldable pub on_start : Bool → Socket.Socket → Socket.Socket
unfolding Socket.set_non_blocking
on_start fcntl_ok s = Socket.set_non_blocking fcntl_ok false s
