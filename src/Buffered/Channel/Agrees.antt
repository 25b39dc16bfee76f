-- ===== src/Buffered/Channel/Agrees.antt =====
-- The reads of the buffered socket agree with its streams, and so does any sequence of calls.
use libcoda_net.Base.{
  ◌≤◌, ◌<◌, ◌+◌, length, length-append, arith, Bool, true, false, Option, none, some, List, [], ◌∷◌,
  ◌++◌, append-nil, append_assoc, ◌≡◌, ◌∙◌, refl, ap, sym, Bytes,
}
use libcoda_net.Socket.{is_valid}
use libcoda_net.Buffered.{
  Buffered, did_read, Received, block, ended, not_now, failed, read_loop, read_from, after_loop,
}
use libcoda_net.Buffered.Listeners.{NoNull, notify-NoNull, told}
use libcoda_net.Buffered.Lines.{readln}
use libcoda_net.Buffered.Receive.{read_to_buffer-valid, told_read}
use libcoda_net.Buffered.Channel.{
  Action, put, put_line, flush, receive, get_line, without_line, perform, with_lines, after_action,
  perform_all, Streams, view, received, spec, spec_all, written, written_all,
}
use libcoda_net.Buffered.Channel.NextLine.{readln-next_line}
use libcoda_net.Buffered.Channel.Sending.{Live, Agrees, put-Agrees, put_line-Agrees, flush-Agrees}

read_loop-received :
    (again : Bool) (input : Bytes) (answers : List Received)
    → (read_loop (λ s. s) again input answers).0 ≡ input ++ received again answers
unfolding read_loop received
read_loop-received again input [] = sym (append-nil input)
read_loop-received true input (block s ∷ rest) =
    read_loop-received true (input ++ s) rest ∙ append_assoc input s (received true rest)
read_loop-received false input (block s ∷ rest) = rw (append-nil s)
read_loop-received again input (ended ∷ rest) = sym (append-nil input)
read_loop-received again input (not_now ∷ rest) = sym (append-nil input)
read_loop-received again input (failed ∷ rest) = sym (append-nil input)

after_loop-Agrees :
    (again : Bool) (b : Buffered) (input : Bytes) (left : List Received) (threw : Bool)
    → Live again b
    → Agrees again
        ([], record (view b) { from_peer = input })
        (without_line (after_loop b (input, left, threw)))
unfolding Agrees Live without_line after_loop
after_loop-Agrees again b input left true l =
    (record b { in_buffer = input; incoming = left }, refl, refl, l)
after_loop-Agrees again b input left false l =
    let b' = record b { in_buffer = input; incoming = left } in
    (
      record b' { calls = b.calls ++ ((none, did_read) ∷ told did_read b.listeners) },
      rw (notify-NoNull did_read b' l.0) refl,
      refl,
      l,
    )

Agrees-eq :
    (again : Bool) (lines : List Bytes) (c c' : Streams) (o : Option (List Bytes × Buffered))
    → c ≡ c'
    → Agrees again (lines, c) o
    → Agrees again (lines, c') o
unfolding Agrees
Agrees-eq again lines c c' o e (b, p, v, l) = (b, p, v ∙ e, l)

nothing_received : (b : Buffered) → view b ≡ record (view b) { from_peer = b.in_buffer ++ [] }
nothing_received b =
    ap (λ input. record (view b) { from_peer = input }) (sym (append-nil b.in_buffer))

read_from-Agrees :
    (again : Bool) (answers : List Received) (b : Buffered)
    → Live again b
    → Agrees again
        (spec again (receive answers) (view b))
        (without_line (read_from (λ s. s) answers b))
unfolding Agrees Live spec received without_line read_from
read_from-Agrees again [] b l = (b, refl, nothing_received b, l)
read_from-Agrees again (ended ∷ rest) b l =
    (record b { incoming = rest }, refl, nothing_received b, l)
read_from-Agrees again (not_now ∷ rest) b l =
    (record b { incoming = rest }, refl, nothing_received b, l)
read_from-Agrees again (failed ∷ rest) b l =
    (record b { incoming = rest }, refl, nothing_received b, l)
read_from-Agrees again (block s ∷ rest) b l =
    let answers = block s ∷ rest in
    let r = read_loop (λ x. x) b.non_blocking b.in_buffer answers in
    let taken : r.0 ≡ b.in_buffer ++ received again answers =
      read_loop-received b.non_blocking b.in_buffer answers
      ∙ ap (λ mode. b.in_buffer ++ received mode answers) l.2 in
    Agrees-eq again [] (record (view b) { from_peer = r.0 }) _ _
      (ap (λ input. record (view b) { from_peer = input }) taken)
      (after_loop-Agrees again b r.0 r.1 r.2 l)

receive-Agrees :
    (again : Bool) (answers : List Received) (b : Buffered)
    → Live again b
    → Agrees again (spec again (receive answers) (view b)) (perform (receive answers) b)
unfolding perform Live
receive-Agrees again answers b l =
    let before = record b { incoming = answers } in
    rw (read_to_buffer-valid (λ s. s) before l.0 l.1, perform)
      (read_from-Agrees again answers (told_read (λ s. s) before) l)

perform-Agrees :
    (again : Bool) (a : Action) (b : Buffered)
    → Live again b
    → length b.out_buffer < 2147483648
    → Agrees again (spec again a (view b)) (perform a b)
unfolding Agrees Live spec perform
perform-Agrees again (put s) b l small = put-Agrees again s b l
perform-Agrees again (put_line s) b l small = put_line-Agrees again s b l
perform-Agrees again (flush ok) b l small = flush-Agrees again ok b l small
perform-Agrees again (receive answers) b l small = receive-Agrees again answers b l
perform-Agrees again get_line b l small = (
  record b { in_buffer = (readln b.in_buffer).1 },
  ap (λ r. some (r.0 ∷ [], record b { in_buffer = (readln b.in_buffer).1 }))
      (readln-next_line b.in_buffer),
  ap (λ r. record (view b) { from_peer = r.1 }) (readln-next_line b.in_buffer),
  l,
)

to_send-written :
    (again : Bool) (a : Action) (c : Streams)
    → length (spec again a c).1.to_send ≤ length c.to_send + written a
unfolding spec
to_send-written again (put s) c = omega (arith, length-append c.to_send s)
to_send-written again (put_line s) c = omega (
  arith,
  length-append c.to_send (s ++ (b'\r' ∷ b'\n' ∷ [])),
  length-append s (b'\r' ∷ b'\n' ∷ []),
)
to_send-written again (flush true) c = omega arith
to_send-written again (flush false) c = omega arith
to_send-written again (receive answers) c = omega arith
to_send-written again get_line c = omega arith

perform_all-Agrees :
    (again : Bool) (actions : List Action) (b : Buffered)
    → Live again b
    → length b.out_buffer + written_all actions < 2147483648
    → Agrees again (spec_all again actions (view b)) (perform_all actions b)
unfolding perform_all spec_all Agrees with_lines
perform_all-Agrees again [] b l small = (b, refl, refl, l)
perform_all-Agrees again (a ∷ actions) b l small =
    let (b₁, e₁, v₁, l₁) = perform-Agrees again a b l (omega arith) in
    let (b₂, e₂, v₂, l₂) =
      perform_all-Agrees again actions b₁ l₁
        (omega (arith, ap (λ c. length c.to_send) v₁, to_send-written again a (view b))) in
    (
      b₂,
      ap (after_action (perform_all actions)) e₁
          ∙ ap (with_lines (spec again a (view b)).0) e₂
          ∙ ap
              (λ (c : Streams).
                some ((spec again a (view b)).0 ++ (spec_all again actions c).0, b₂))
              v₁,
      v₂ ∙ ap (λ (c : Streams). (spec_all again actions c).1) v₁,
      l₂,
    )

-- Any sequence of writes, flushes, reads and calls of readln on a valid socket without null
-- listeners, in which the system takes the whole of what it is sent or nothing, and which writes less
-- than 2 ^ 31 bytes with those that were to be sent before, runs to its end, and does to the streams
-- what the specification says: what is written is to be sent, in order; a flush sends all of it if
-- the system takes it and else leaves it; what is received is behind what was received before; and
-- each call of readln takes the bytes up to the first newline character, or all of them, and drops
-- the newline characters there.
pub perform_all-spec_all :
    (actions : List Action) (b : Buffered)
    → NoNull b.listeners
    → is_valid b.socket ≡ true
    → length b.out_buffer + written_all actions < 2147483648
    → (b' : Buffered) × (perform_all actions b
        ≡ some ((spec_all b.socket.non_blocking actions (view b)).0, b'))
      × (view b' ≡ (spec_all b.socket.non_blocking actions (view b)).1)
unfolding Agrees Live
perform_all-spec_all actions b n v small =
    let (b', e, agrees, l) =
      perform_all-Agrees b.socket.non_blocking actions b (n, v, refl) small in
    (b', e, agrees)
