-- ===== src/Buffered.antt =====
-- buffered_socket.h and buffered_socket.cpp. What the system does with the descriptor is a script in
-- the state: the answers to the coming `recv` and `send` calls. `wire` is what the peer was sent.
-- A hook is the call of the object's own virtual handler and of every listener's, in their order.
pub mod Lines
pub mod Transfer
pub mod Receive
pub mod Listeners
mod Removal
pub mod Channel
pub mod Calls
pub mod Connection
pub mod Objects
mod Tests
use libcoda_net.Base.{
  ℕ, suc, zero, ◌+◌, ◌%◌, Bool, true, false, not, ◌&&◌, ◌||◌, Option, none, some, List, [], ◌∷◌,
  ◌++◌, ◌==◌, if◌then◌else◌, Bytes, length, is_empty, map,
}
use libcoda_net.Socket.{Socket, Fds, is_valid}
use libcoda_net.Socket

pub data Hook : Type 0 where
  will_read did_read will_write did_write connected closed : Hook

-- The answer to a `recv`: a block of at least one byte, the end of the stream, or an error, which is
-- one of EINTR, EAGAIN and EWOULDBLOCK or another.
pub data Received : Type 0 where
  block : Bytes → Received
  ended : Received
  not_now : Received
  failed : Received

-- A listener that is called: its number, and the hook. The object's own handler is `none`.
abbrev pub Call : Type 0
Call = Option ℕ × Hook

pub record Buffered : Type 0 where
  pub socket : Socket
  pub open socket use *
  pub in_buffer : Bytes
  pub out_buffer : Bytes
  -- `none` is a null pointer, which only `remove_listener` leaves behind.
  pub listeners : List (Option ℕ)
  pub fds : Fds
  -- An exhausted script of `recv` is a socket with nothing to read, one of `send` a closed peer.
  pub incoming : List Received
  pub outgoing : List (Option ℕ)
  pub wire : Bytes
  pub calls : List Call

-- Calls through the pointers of the list; `none` is a null pointer that is called.
unfoldable pub call_all : Hook → List (Option ℕ) → Option (List Call)
call_all h [] = some []
call_all h (none ∷ ls) = none
call_all h (some l ∷ ls) = elim (call_all h ls) [ none ↦ none | some cs ↦ some ((some l, h) ∷ cs) ]

-- The `notify_` functions, one for each hook.
unfoldable pub notify : Hook → Buffered → Option Buffered
notify h b = elim (call_all h b.listeners) [
  | none ↦ none
  | some cs ↦ some (record b { calls = b.calls ++ ((none, h) ∷ cs) })
]

infixl 5 ◌>>=◌
abbrev pub ◌>>=◌ {ℓ κ} : {A : Type ℓ} {B : Type κ} → Option A → (A → Option B) → Option B
none >>= f = none
some a >>= f = f a

-- The write side of the buffer.
abbrev pub newline : Bytes
newline = b'\r' ∷ b'\n' ∷ []

unfoldable pub write : Bytes → Buffered → Buffered
write value b = record b { out_buffer = b.out_buffer ++ value }

unfoldable pub writeln : Bytes → Buffered → Buffered
writeln value b = record b { out_buffer = (b.out_buffer ++ value) ++ newline }

-- The answer of the system to one `send` of the whole output buffer, and what it puts on the wire.
unfoldable pub take : ℕ → Bytes → Bytes
take zero s = []
take (suc n) [] = []
take (suc n) (c ∷ s) = c ∷ take n s

unfoldable pub next_answer : List (Option ℕ) → Option ℕ
next_answer [] = none
next_answer (o ∷ os) = o

unfoldable pub later_answers : List (Option ℕ) → List (Option ℕ)
later_answers [] = []
later_answers (o ∷ os) = os

abbrev pub sent : Option ℕ → ℕ
sent none = 0
sent (some n) = n

-- `send(outBuffer_)`: its status, and the state behind it.
unfoldable pub send_out : Buffered → Option ℕ × Buffered
unfolding next_answer later_answers take Socket.send
send_out b =
    let answer = next_answer b.outgoing in
    let status = Socket.send (λ s. answer) (λ s. answer) b.socket b.out_buffer in
    (
      status,
      record b {
        outgoing = later_answers b.outgoing;
        wire = b.wire ++ take (sent status) b.out_buffer;
      },
    )

-- `send(...) != static_cast<int>(size)`: both sides have 32 bits, and an error is -1.
abbrev pub is_all : Option ℕ → ℕ → Bool
is_all none n = n % 4294967296 == 4294967295
is_all (some k) n = k % 4294967296 == n % 4294967296

-- `write_from_buffer` behind its `send`; `size` is that of the buffer.
unfoldable pub after_send : ℕ → Option ℕ × Buffered → Option (Bool × Buffered)
after_send size (status, b) =
    if is_all status size
    then notify did_write (record b { out_buffer = [] }) >>= (λ b'. some (true, b'))
    else some (false, b)

-- The result, and the object; `none` is the call of a null listener.
unfoldable pub write_from_buffer : Buffered → Option (Bool × Buffered)
write_from_buffer b =
    if not (is_valid b.socket)
    then some (false, b)
    else if is_empty b.out_buffer
    then some (true, b)
    else notify will_write b >>= (λ b'. after_send (length b.out_buffer) (send_out b'))

-- `read_to_buffer` behind its loop.
unfoldable pub after_loop : Buffered → Bytes × List Received × Bool → Option (Bool × Buffered)
after_loop b (input, left, threw) =
    let b' = record b { in_buffer = input; incoming = left } in
    if threw then some (false, b') else (notify did_read b' >>= (λ b''. some (true, b'')))

-- `filter` is the `on_recv` of the class, which `socket::recv` runs over each block.
module _ (filter : Bytes → Bytes) where
  -- The `do` loop: the input, the script that is left, and whether it was left by the exception.
  unfoldable pub read_loop : Bool → Bytes → List Received → Bytes × List Received × Bool
  read_loop again input [] = (input, [], false)
  read_loop again input (block s ∷ rest) =
      let more = read_loop again (input ++ filter s) rest in
      if again then more else (input ++ filter s, rest, false)
  read_loop again input (ended ∷ rest) = (input, rest, false)
  read_loop again input (not_now ∷ rest) = (input, rest, false)
  read_loop again input (failed ∷ rest) = (input, rest, true)

  -- From the first `read_chunk` on, by the script. The first block is there, or the call returns.
  unfoldable pub read_from : List Received → Buffered → Option (Bool × Buffered)
  unfolding read_loop after_loop
  read_from [] b = some (true, b)
  read_from (ended ∷ rest) b = some (true, record b { incoming = rest })
  read_from (not_now ∷ rest) b = some (true, record b { incoming = rest })
  read_from (failed ∷ rest) b = some (false, record b { incoming = rest })
  read_from (block s ∷ rest) b =
      after_loop b (read_loop b.non_blocking b.in_buffer (block s ∷ rest))

  unfoldable pub read_to_buffer : Buffered → Option (Bool × Buffered)
  read_to_buffer b = do
    b' ← notify will_read b
    if is_valid b'.socket then read_from b'.incoming b' else some (true, b')

-- `close` of a socket that is valid tells the listeners, tries to write what is left, and closes.
unfoldable pub close : Buffered → Option Buffered
close b =
    if is_valid b.socket
    then (do
      b' ← notify closed b
      r ← write_from_buffer b'
      let s = Socket.close r.1.socket r.1.fds
      some (record (r.1) { socket = s.0; fds = s.1 }))
    else some b
