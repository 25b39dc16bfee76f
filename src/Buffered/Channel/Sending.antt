-- ===== src/Buffered/Channel/Sending.antt =====
-- The writes and the flush of the buffered socket agree with its streams.
use libcoda_net.Base.{
  ℕ, ◌<◌, Bool, true, false, Option, none, some, List, [], ◌∷◌, ◌++◌, append-nil, append_assoc, ◌≡◌,
  ◌∙◌, refl, ap, sym, arith, Bytes, length, List-cases, inl, inr, ◌≢◌,
}
use libcoda_net.Socket.{is_valid}
use libcoda_net.Buffered.{take, Buffered, write, writeln, write_from_buffer}
use libcoda_net.Buffered.Listeners.{NoNull}
use libcoda_net.Buffered.Transfer.{
  write_answer, write_answer_all, is_all_error, all_written, part_written,
}
use libcoda_net.Buffered.Channel.{put, put_line, flush, without_line, perform, Streams, view, spec}

-- A socket that is valid, in this mode, and has no null listener.
unfoldable pub Live : Bool → Buffered → Type 0
Live again b = NoNull b.listeners × (is_valid b.socket ≡ true) × (b.socket.non_blocking ≡ again)

-- An outcome that agrees with the streams.
unfoldable pub Agrees : Bool → List Bytes × Streams → Option (List Bytes × Buffered) → Type 0
Agrees again (lines, c) o = (b' : Buffered) × (o ≡ some (lines, b')) × (view b' ≡ c) × Live again b'

pub put-Agrees :
    (again : Bool) (s : Bytes) (b : Buffered)
    → Live again b
    → Agrees again (spec again (put s) (view b)) (perform (put s) b)
unfolding spec perform write Agrees Live
put-Agrees again s b l = (write s b, refl, refl, l)

pub put_line-Agrees :
    (again : Bool) (s : Bytes) (b : Buffered)
    → Live again b
    → Agrees again (spec again (put_line s) (view b)) (perform (put_line s) b)
unfolding spec perform writeln Agrees Live
put_line-Agrees again s b l = (
  writeln s b,
  refl,
  ap (λ out. record (view b) { to_send = out }) (append_assoc b.out_buffer s (b'\r' ∷ b'\n' ∷ [])),
  l,
)

pub write_from_buffer_empty :
    (b : Buffered)
    → is_valid b.socket ≡ true
    → b.out_buffer ≡ []
    → write_from_buffer b ≡ some (true, b)
unfolding write_from_buffer
write_from_buffer_empty b v e = ground arith

flush_empty-Agrees :
    (again ok : Bool) (o : Option ℕ) (b : Buffered)
    → Live again b
    → b.out_buffer ≡ []
    → Agrees again
        (spec again (flush ok) (view b))
        (without_line (write_from_buffer (record b { outgoing = o ∷ [] })))
unfolding Agrees Live without_line spec
flush_empty-Agrees again true o b l e = (
  record b { outgoing = o ∷ [] },
  ap without_line (write_from_buffer_empty (record b { outgoing = o ∷ [] }) l.1 e),
  λ i. record (view b) {
    sent = (sym (append-nil b.wire) ∙ ap (◌++◌ b.wire) (sym e)) i;
    to_send = e i;
  },
  l,
)
flush_empty-Agrees again false o b l e = (
  record b { outgoing = o ∷ [] },
  ap without_line (write_from_buffer_empty (record b { outgoing = o ∷ [] }) l.1 e),
  refl,
  l,
)

flush_all-Agrees :
    (again : Bool) (b : Buffered)
    → Live again b
    → b.out_buffer ≢ []
    → Agrees again
        (spec again (flush true) (view b))
        (without_line (write_from_buffer (record b { outgoing = some (length b.out_buffer) ∷ [] })))
unfolding Agrees Live without_line spec
flush_all-Agrees again b l ne =
    let before = record b { outgoing = some (length b.out_buffer) ∷ [] } in
    (all_written before [], ap without_line (write_answer_all before [] l.0 l.1 ne refl), refl, l)

flush_none-Agrees :
    (again : Bool) (b : Buffered)
    → Live again b
    → b.out_buffer ≢ []
    → length b.out_buffer < 2147483648
    → Agrees again
        (spec again (flush false) (view b))
        (without_line (write_from_buffer (record b { outgoing = none ∷ [] })))
unfolding Agrees Live without_line take spec
flush_none-Agrees again b l ne small =
    let before = record b { outgoing = none ∷ [] } in
    let sends : write_from_buffer before ≡ some (false, part_written before none []) =
      write_answer before none [] l.0 l.1 ne refl
      ∙ rw (is_all_error (length b.out_buffer) small) refl in
    (
      part_written before none [],
      ap without_line sends,
      ap (λ out. record (view b) { sent = out }) (append-nil b.wire),
      l,
    )

pub flush-Agrees :
    (again ok : Bool) (b : Buffered)
    → Live again b
    → length b.out_buffer < 2147483648
    → Agrees again (spec again (flush ok) (view b)) (perform (flush ok) b)
unfolding perform
flush-Agrees again ok b l small = elim (List-cases b.out_buffer) [
  | inl e ↦ flush_empty-Agrees again ok _ b l e
  | inr (c, s, e) ↦ full ok (λ none_left. cc (sym e ∙ none_left))
]
  where
    full :
        (ok : Bool)
        → b.out_buffer ≢ []
        → Agrees again (spec again (flush ok) (view b)) (perform (flush ok) b)
    full true ne = flush_all-Agrees again b l ne
    full false ne = flush_none-Agrees again b l ne small
