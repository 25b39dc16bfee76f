-- ===== src/Buffered/Calls.antt =====
-- `read_to_buffer` by the calls of `recv` that it makes, with the status and `errno` of each, and the
-- script of answers that stands for them in the other modules.
pub mod Script
use libcoda_net.Base.{
  ℕ, zero, suc, Bool, true, false, not, Option, none, some, List, [], ◌∷◌, ◌++◌, if◌then◌else◌,
  Bytes,
}
use libcoda_net.Socket.{Socket, is_valid, recv}
use libcoda_net.Buffered.{Buffered, will_read, did_read, notify, ◌>>=◌}

pub data Errno : Type 0 where
  eintr eagain ewouldblock other : Errno

-- An answer of the system: at least one byte, the end of the stream, or an error.
pub data Answer : Type 0 where
  bytes : ℕ → Bytes → Answer
  end_of_stream : Answer
  error : Errno → Answer

abbrev raw : Answer → Option Bytes
raw (bytes c s) = some (c ∷ s)
raw end_of_stream = some []
raw (error e) = none

-- What one call of `read_chunk` gives: true with the chunk, false, or an exception.
pub data Chunk : Type 0 where
  chunk : Bytes → Chunk
  no_chunk : Chunk
  thrown : Chunk

unfoldable pub is_transient : Answer → Bool
is_transient (error other) = false
is_transient _ = true

-- By the status.
unfoldable pub after_recv : Bool → Option ℕ × Bytes → Chunk
after_recv transient (none, buffer) = if transient then no_chunk else thrown
after_recv transient (some zero, buffer) = no_chunk
after_recv transient (some (suc n), buffer) = chunk buffer

module _ (on_recv : Bytes → Bytes) where
  unfoldable pub read_chunk : Answer → Socket → Chunk
  unfolding after_recv is_transient recv
  read_chunk a s =
      if not (is_valid s) then no_chunk else after_recv (is_transient a) (recv on_recv (raw a) s [])

  -- The `do` loop, which has a chunk: the input, the answers that are left, and whether it was left by
  -- the exception. Where the answers are used up there is nothing to read.
  unfoldable pub chunk_loop : Socket → List Answer → Chunk → Bytes → Bytes × List Answer × Bool
  unfolding read_chunk
  chunk_loop s answers no_chunk input = (input, answers, false)
  chunk_loop s answers thrown input = (input, answers, true)
  chunk_loop s [] (chunk c) input = (input ++ c, [], false)
  chunk_loop s (a ∷ answers) (chunk c) input =
      let rest = chunk_loop s answers (read_chunk a s) (input ++ c) in
      if s.non_blocking then rest else (input ++ c, a ∷ answers, false)

  -- Behind the loop: the result, the answers that are left, and the object.
  unfoldable pub behind_loop :
      Buffered → Bytes × List Answer × Bool → Option (Bool × List Answer × Buffered)
  unfolding notify
  behind_loop b (input, left, threw) =
      let b' = record b { in_buffer = input } in
      if threw
      then some (false, left, b')
      else (notify did_read b' >>= (λ b''. some (true, left, b'')))

  unfoldable pub after_first :
      Buffered → List Answer → Chunk → Option (Bool × List Answer × Buffered)
  unfolding behind_loop chunk_loop
  after_first b answers no_chunk = some (true, answers, b)
  after_first b answers thrown = some (false, answers, b)
  after_first b answers (chunk c) =
      behind_loop b (chunk_loop b.socket answers (chunk c) b.in_buffer)

  unfoldable pub first_chunk : List Answer → Buffered → Option (Bool × List Answer × Buffered)
  unfolding after_first read_chunk
  first_chunk [] b = some (true, [], b)
  first_chunk (a ∷ answers) b =
      if is_valid b.socket
      then after_first b answers (read_chunk a b.socket)
      else some (true, a ∷ answers, b)

  -- `read_to_buffer`, over the answers to the calls of `recv`.
  unfoldable pub read_calls : List Answer → Buffered → Option (Bool × List Answer × Buffered)
  unfolding notify first_chunk
  read_calls answers b = notify will_read b >>= (λ b'. first_chunk answers b')
