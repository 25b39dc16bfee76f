-- ===== src/Buffered/Tests.antt =====
-- The theorems of the buffered socket at concrete states.
use libcoda_net.Base.{
  ◌⊎◌, true, false, some, List, [], ◌∷◌, ◌++◌, ◌≡◌, ◌≢◌, refl, Bytes, ascii, length, arith, ◌<◌,
}
use libcoda_net.Socket.{
  Socket, refused, connected, connect_loop, returned, is_valid, release, closesocket,
}
use libcoda_net.Buffered.{
  Buffered, will_read, did_read, block, ended, not_now, write_from_buffer, read_to_buffer,
}
use libcoda_net.Buffered.Lines.{
  readln, readln-split, read_lines, write_lines, read_lines-write_lines, NoNewline, AllNewline,
  StartsLine,
}
use libcoda_net.Buffered.Transfer.{part_written, all_written, write_from_buffer_lem, notified}
use libcoda_net.Buffered.Calls.{Answer, bytes, error, eintr, read_calls}
use libcoda_net.Buffered.Calls.Script.{forget, read_calls-script}
use libcoda_net.Buffered.Connection
use libcoda_net.Buffered.Connection.{extract, reconnect_keeps}
use libcoda_net.Buffered.Objects.{move_assign, move_assign-flushes, destroy}
use libcoda_net.Buffered.Channel.{
  Action, put, put_line, flush, receive, get_line, perform_all, spec_all, spec, received, next_line,
  view,
}
use libcoda_net.Buffered.Channel.Agrees.{perform_all-spec_all}
use libcoda_net.Buffered.Receive.{read_to_buffer-blocks}

abbrev peer : Socket
peer = record { sock = some 4; non_blocking = true; secure = false }

abbrev live : Buffered
live = record {
  socket = peer;
  in_buffer = ascii "a";
  out_buffer = ascii "hello";
  listeners = some 1 ∷ some 2 ∷ [];
  fds = 4 ∷ [];
  incoming = block (ascii "b") ∷ block (ascii "c") ∷ not_now ∷ ended ∷ [];
  outgoing = some 2 ∷ some 5 ∷ [];
  wire = [];
  calls = [];
}

abbrev blank : Buffered
blank = record live { out_buffer = [] }

readln-split_example :
    let (line, left) = readln (ascii "one\n\r\ntwo\n") in
    (gap : Bytes) × (ascii "one\n\r\ntwo\n" ≡ line ++ (gap ++ left))
    × NoNewline line
    × AllNewline gap
    × StartsLine left
    × ((gap ≢ []) ⊎ (left ≡ []))
    × ((ascii "one\n\r\ntwo\n" ≡ []) ⊎ (length left < length (ascii "one\n\r\ntwo\n")))
readln-split_example = readln-split (ascii "one\n\r\ntwo\n")

readln_one : readln (ascii "one\n\r\ntwo\n") ≡ (ascii "one", ascii "two\n")
unfolding readln
readln_one = refl

read_lines-write_lines_example :
    read_lines 2 (write_lines (ascii "ab" ∷ ascii "c" ∷ []) blank).out_buffer
    ≡ (ascii "ab" ∷ ascii "c" ∷ [], [])
read_lines-write_lines_example =
    read_lines-write_lines (ascii "ab" ∷ ascii "c" ∷ []) blank (ground arith) refl

write_from_buffer_lem_example :
    ((some 2 ≡ some (length live.out_buffer))
      × (write_from_buffer live ≡ some (true, all_written live (some 5 ∷ []))))
    ⊎ ((some 2 ≢ some (length live.out_buffer))
        × (write_from_buffer live ≡ some (false, part_written live (some 2) (some 5 ∷ []))))
write_from_buffer_lem_example =
    write_from_buffer_lem live (some 2) (some 5 ∷ []) (refl, (refl, tt)) refl (λ e. cc) refl
      (omega arith)

abbrev reader : Buffered
reader = record live {
  in_buffer = ascii "abc";
  incoming = ended ∷ [];
  calls = notified will_read live ++ notified did_read live;
}

read_to_buffer-blocks_example : read_to_buffer (λ s. s) live ≡ some (true, reader)
read_to_buffer-blocks_example =
    read_to_buffer-blocks (λ s. s) (ascii "b" ∷ ascii "c" ∷ []) not_now live (ended ∷ []) tt
      (refl, (refl, tt)) refl refl refl

abbrev dialogue : List Action
dialogue =
    put (ascii "a")
    ∷ flush false
    ∷ put_line (ascii "b")
    ∷ flush true
    ∷ receive (block (ascii "x\r\ny") ∷ block (ascii "z") ∷ not_now ∷ [])
    ∷ get_line
    ∷ get_line
    ∷ []

perform_all-spec_all_example :
    (b' : Buffered) × (perform_all dialogue live
      ≡ some ((spec_all true dialogue (view live)).0, b'))
    × (view b' ≡ (spec_all true dialogue (view live)).1)
perform_all-spec_all_example =
    perform_all-spec_all dialogue live (refl, (refl, tt)) refl (omega arith)

-- The second line has no newline character behind it.
dialogue_lines : (spec_all true dialogue (view live)).0 ≡ ascii "ax" ∷ ascii "yz" ∷ []
unfolding spec_all spec received next_line
dialogue_lines = refl

-- A block, an interrupted call, and one more block, which is not read.
abbrev interrupted : List Answer
interrupted = bytes b'x' (ascii "y") ∷ error eintr ∷ bytes b'z' [] ∷ []

read_calls-script_example :
    forget (read_calls (λ s. s) interrupted live)
    ≡ read_to_buffer
        (λ s. s)
        (record live { incoming = block (ascii "xy") ∷ not_now ∷ block (ascii "z") ∷ [] })
read_calls-script_example = read_calls-script (λ s. s) interrupted live

reconnect_keeps_example :
    (b' b'' : Buffered) × (Connection.connect (some (refused 6 ∷ connected 7 ∷ [])) true live
      ≡ some (returned true, b'))
    × (b'.socket.sock ≡ some 7)
    × (b'.socket.secure ≡ false)
    × (b'.in_buffer ≡ ascii "a")
    × (b'.out_buffer ≡ ascii "hello")
    × (write_from_buffer b' ≡ some (true, b''))
    × (b''.wire ≡ b'.wire ++ ascii "hello")
    × (b''.out_buffer ≡ [])
unfolding connect_loop
reconnect_keeps_example =
    reconnect_keeps (refused 6 ∷ connected 7 ∷ []) 7 live (some 2) [] (refl, (refl, tt)) refl refl
      (λ e. cc) refl (omega arith) (λ e. ground arith) refl

-- Reading with the operator leaves the input where it is.
extract_keeps : (extract [] (extract [] live).1).0 ≡ (extract [] live).0
unfolding extract
extract_keeps = refl

abbrev other : Buffered
other = record live {
  socket = record peer { sock = some 9 };
  in_buffer = ascii "new";
  out_buffer = [];
  listeners = [];
  fds = 4 ∷ 9 ∷ [];
}

abbrev taken : Buffered
taken = record live { outgoing = some 5 ∷ [] }

move_assign-flushes_example :
    (old target source : Buffered) × (move_assign taken other ≡ some (old, target, source))
    × (old.wire ≡ ascii "hello")
    × (target.socket ≡ other.socket)
    × (target.in_buffer ≡ ascii "new")
    × (target.out_buffer ≡ [])
    × (target.listeners ≡ [])
    × (target.fds ≡ 9 ∷ [])
    × (is_valid source.socket ≡ false)
    × (source.in_buffer ≡ [])
    × (source.out_buffer ≡ [])
unfolding release closesocket
move_assign-flushes_example =
    move_assign-flushes taken other [] (refl, (refl, tt)) refl (λ e. cc) refl

-- The destructor neither sends what is left nor calls a listener.
destroy_drops : (destroy live).calls ≡ []
unfolding destroy
destroy_drops = refl
