-- ===== src/Buffered/Channel.antt =====
-- The buffered socket as a pair of byte streams. The answers of the system are part of the actions.
pub mod Agrees
pub mod Sending
mod NextLine
use libcoda_net.Base.{
  ℕ, ◌+◌, Bool, true, false, Option, none, some, List, [], ◌∷◌, ◌++◌, append-nil, append_assoc, ◌≡◌,
  ◌∙◌, refl, ap, sym, arith, if◌then◌else◌, ◌==◌, ◌||◌, Bytes, length, Bool-cases, List-cases, inl,
  inr, ◌≢◌,
}
use libcoda_net.Socket.{is_valid}
use libcoda_net.Buffered.{
  take, Buffered, will_read, did_read, Received, block, ended, not_now, failed, newline, write,
  writeln, write_from_buffer, read_loop, read_from, read_to_buffer, after_loop, notify,
}
use libcoda_net.Buffered.Listeners.{NoNull, notify-NoNull, told}
use libcoda_net.Buffered.Lines.{readln}
use libcoda_net.Buffered.Transfer.{
  write_answer, write_answer_all, all_written, part_written, is_empty-ne,
}
use libcoda_net.Buffered.Receive.{read_to_buffer-valid, told_read}

-- What an application does, with what the system answers: whether it takes all that is to be sent or
-- nothing, and the coming answers to `recv`.
pub data Action : Type 0 where
  put put_line : Bytes → Action
  flush : Bool → Action
  receive : List Received → Action
  get_line : Action

-- No line, and the object; `none` is the call of a null listener.
unfoldable pub without_line : Option (Bool × Buffered) → Option (List Bytes × Buffered)
without_line none = none
without_line (some (r, b)) = some ([], b)

-- A line, for `get_line`, and the object.
unfoldable pub perform : Action → Buffered → Option (List Bytes × Buffered)
unfolding write writeln without_line write_from_buffer read_to_buffer readln
perform (put s) b = some ([], write s b)
perform (put_line s) b = some ([], writeln s b)
perform (flush ok) b = without_line (
    write_from_buffer
      (record b { outgoing = (if ok then some (length b.out_buffer) else none) ∷ [] }))
perform (receive answers) b =
    without_line (read_to_buffer (λ s. s) (record b { incoming = answers }))
perform get_line b =
    some ((readln b.in_buffer).0 ∷ [], record b { in_buffer = (readln b.in_buffer).1 })

unfoldable pub with_lines :
    List Bytes → Option (List Bytes × Buffered) → Option (List Bytes × Buffered)
with_lines lines none = none
with_lines lines (some (more, b)) = some (lines ++ more, b)

unfoldable pub after_action :
    (Buffered → Option (List Bytes × Buffered))
    → Option (List Bytes × Buffered)
    → Option (List Bytes × Buffered)
unfolding with_lines
after_action next none = none
after_action next (some (lines, b)) = with_lines lines (next b)

unfoldable pub perform_all : List Action → Buffered → Option (List Bytes × Buffered)
unfolding perform after_action
perform_all [] b = some ([], b)
perform_all (a ∷ actions) b = after_action (perform_all actions) (perform a b)

-- The streams: what the peer was sent, what is still to be sent, and what was received and is not
-- read.
pub record Streams : Type 0 where
  pub sent : Bytes
  pub to_send : Bytes
  pub from_peer : Bytes

abbrev pub view : Buffered → Streams
view b = record { sent = b.wire; to_send = b.out_buffer; from_peer = b.in_buffer }

-- What a read takes of the answers.
unfoldable pub received : Bool → List Received → Bytes
received again [] = []
received again (block s ∷ rest) = s ++ (if again then received again rest else [])
received again (ended ∷ rest) = []
received again (not_now ∷ rest) = []
received again (failed ∷ rest) = []

-- The next line of a stream and what is behind it, in one pass: bytes go into the line up to the
-- first newline character, and from there on newline characters are dropped up to the first other
-- byte. The flag is whether a newline character was met.
unfoldable pub next_line : Bool → Bytes → Bytes × Bytes
next_line met [] = ([], [])
next_line false (c ∷ s) =
    let (line, left) = next_line false s in
    let behind = next_line true s in if c == b'\r' || c == b'\n' then behind else (c ∷ line, left)
next_line true (c ∷ s) =
    let behind = next_line true s in if c == b'\r' || c == b'\n' then behind else ([], c ∷ s)

unfoldable pub spec : Bool → Action → Streams → List Bytes × Streams
unfolding received next_line
spec again (put s) c = ([], record c { to_send = c.to_send ++ s })
spec again (put_line s) c = ([], record c { to_send = c.to_send ++ (s ++ (b'\r' ∷ b'\n' ∷ [])) })
spec again (flush true) c = ([], record c { sent = c.sent ++ c.to_send; to_send = [] })
spec again (flush false) c = ([], c)
spec again (receive answers) c =
    ([], record c { from_peer = c.from_peer ++ received again answers })
spec again get_line c =
    let (line, left) = next_line false c.from_peer in (line ∷ [], record c { from_peer = left })

unfoldable pub spec_all : Bool → List Action → Streams → List Bytes × Streams
unfolding spec
spec_all again [] c = ([], c)
spec_all again (a ∷ actions) c =
    let (lines, c') = spec again a c in
    let (more, c'') = spec_all again actions c' in (lines ++ more, c'')

-- How many bytes the actions write.
abbrev pub written : Action → ℕ
written (put s) = length s
written (put_line s) = 2 + length s
written _ = 0

abbrev pub written_all : List Action → ℕ
written_all [] = 0
written_all (a ∷ actions) = written a + written_all actions
