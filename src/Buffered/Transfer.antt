-- ===== src/Buffered/Transfer.antt =====
-- `write_from_buffer`, `read_to_buffer` and `close` against the answers of the system.
use native.Mathlib.Nat.{mod-eq_of_lt}
use libcoda_net.Base.{
  sym, ◌%◌, ◌≤◌, ◌⊎◌, ℕ, ◌<◌, true, false, Option, none, some, List, [], ◌∷◌, ◌++◌, ◌≡◌, ◌≢◌, ◌∙◌,
  refl, ap, arith, if◌then◌else◌, length, Bool-cases, inl, inr, Bytes, is_empty,
}
use libcoda_net.Socket
use libcoda_net.Socket.{is_some, is_valid}
use libcoda_net.Buffered.{
  Buffered, Hook, will_write, did_write, Call, take, sent, is_all, send_out, after_send,
  write_from_buffer,
}
use libcoda_net.Buffered.Listeners.{NoNull, told, notify-NoNull}

take-length : (s : Bytes) → take (length s) s ≡ s
unfolding take
take-length [] = refl
take-length (c ∷ s) = ap (◌∷◌ c) (take-length s)

-- The log of a notification.
abbrev pub notified : Hook → Buffered → List Call
notified h b = (none, h) ∷ told h b.listeners

send-valid :
    (o : Option ℕ) (s : Socket.Socket) (out : Bytes)
    → is_valid s ≡ true
    → out ≢ []
    → Socket.send (λ x. o) (λ x. o) s out ≡ o
unfolding Socket.send
send-valid o s [] v ne = absurd (ne refl)
send-valid o s (c ∷ out) v ne = ground arith

-- Behind the `send` of a valid socket.
abbrev after_answer : Buffered → Option ℕ → List (Option ℕ) → Buffered
after_answer b o os = record b { outgoing = os; wire = b.wire ++ take (sent o) b.out_buffer }

send_out-answer :
    (b : Buffered) (o : Option ℕ) (os : List (Option ℕ))
    → is_valid b.socket ≡ true
    → b.out_buffer ≢ []
    → b.outgoing ≡ o ∷ os
    → send_out b ≡ (o, after_answer b o os)
unfolding send_out
send_out-answer b o os v ne e = rw (e, send_out) (rw (send-valid o b.socket b.out_buffer v ne))

pub is_empty-ne : (s : Bytes) → s ≢ [] → is_empty s ≡ false
is_empty-ne [] h = absurd (h refl)
is_empty-ne (c ∷ s) h = refl

abbrev pub part_written : Buffered → Option ℕ → List (Option ℕ) → Buffered
part_written b o os = record b {
  outgoing = os;
  wire = b.wire ++ take (sent o) b.out_buffer;
  calls = b.calls ++ notified will_write b;
}

abbrev pub some_written : Buffered → Option ℕ → List (Option ℕ) → Buffered
some_written b o os = record b {
  out_buffer = [];
  outgoing = os;
  wire = b.wire ++ take (sent o) b.out_buffer;
  calls = (b.calls ++ notified will_write b) ++ notified did_write b;
}

-- The state behind a send of the whole buffer.
abbrev pub all_written : Buffered → List (Option ℕ) → Buffered
all_written b os = record b {
  out_buffer = [];
  outgoing = os;
  wire = b.wire ++ b.out_buffer;
  calls = (b.calls ++ notified will_write b) ++ notified did_write b;
}

-- One call of `write_from_buffer` by the answer of the system, on a valid socket whose output is not
-- empty.
pub write_answer :
    (b : Buffered) (o : Option ℕ) (os : List (Option ℕ))
    → NoNull b.listeners
    → is_valid b.socket ≡ true
    → b.out_buffer ≢ []
    → b.outgoing ≡ o ∷ os
    → write_from_buffer b ≡ (
        if is_all o (length b.out_buffer)
        then some (true, some_written b o os)
        else some (false, part_written b o os))
unfolding write_from_buffer after_send
write_answer b o os n v ne e =
    rw (v, write_from_buffer)
      (rw (is_empty-ne b.out_buffer ne) (
        rw (notify-NoNull will_write b n) (
          rw (send_out-answer (record b { calls = b.calls ++ notified will_write b }) o os v ne e)
            (elim (Bool-cases (is_all o (length b.out_buffer))) [
              | inl all ↦ rw all (
                  rw (notify-NoNull did_write (record (part_written b o os) { out_buffer = [] }) n))
              | inr less ↦ rw less
            ]))))

-- What `send` can answer for a buffer whose size fits an `int`.
abbrev pub IsAnswer : Option ℕ → ℕ → Type 0
IsAnswer none n = n < 2147483648
IsAnswer (some k) n = (k ≤ n) × (n < 2147483648)

fits : (n : ℕ) → n < 2147483648 → n % 4294967296 ≡ n
fits n h = mod-eq_of_lt (omega arith)

is_all-eq : (o : Option ℕ) (n : ℕ) → IsAnswer o n → is_all o n ≡ true → o ≡ some n
is_all-eq none n a h = absurd (ground (arith, fits n (omega arith)))
is_all-eq (some k) n a h = ap some (ground (arith, fits n (omega arith), fits k (omega arith)))

is_all_self : (n : ℕ) → is_all (some n) n ≡ true
is_all_self n = ground arith

pub is_all_error : (n : ℕ) → n < 2147483648 → is_all none n ≡ false
is_all_error n h = ground (arith, fits n (omega arith))

pub write_answer_all :
    (b : Buffered) (os : List (Option ℕ))
    → NoNull b.listeners
    → is_valid b.socket ≡ true
    → b.out_buffer ≢ []
    → b.outgoing ≡ some (length b.out_buffer) ∷ os
    → write_from_buffer b ≡ some (true, all_written b os)
write_answer_all b os n v ne e =
    write_answer b (some (length b.out_buffer)) os n v ne e
    ∙ rw (is_all_self (length b.out_buffer)) (
        ap (λ w. some (true, record (all_written b os) { wire = b.wire ++ w }))
          (take-length b.out_buffer))

-- What one call of `write_from_buffer` on a valid socket with output does: if the system takes the
-- whole buffer, the peer is sent it, the buffer is empty and the call is true; on any other answer
-- the call is false and the whole buffer is kept, whatever part of it was sent. The input, the
-- listeners and the socket stay. No pointer of the listeners is null, the buffer is smaller than 2 ^ 31
-- bytes, and the system does not take more than it.
pub write_from_buffer_lem :
    (b : Buffered) (o : Option ℕ) (os : List (Option ℕ))
    → NoNull b.listeners
    → is_valid b.socket ≡ true
    → b.out_buffer ≢ []
    → b.outgoing ≡ o ∷ os
    → IsAnswer o (length b.out_buffer)
    → ((o ≡ some (length b.out_buffer)) × (write_from_buffer b ≡ some (true, all_written b os)))
      ⊎ ((o ≢ some (length b.out_buffer))
          × (write_from_buffer b ≡ some (false, part_written b o os)))
write_from_buffer_lem b o os n v ne e a = elim (Bool-cases (is_all o (length b.out_buffer))) [
  | inl all ↦
      let all_taken = is_all-eq o (length b.out_buffer) a all in
      inl (all_taken, write_answer_all b os n v ne (e ∙ ap (λ a. a ∷ os) all_taken))
  | inr less ↦ inr (
    λ h.
        cc (
          sym less
          ∙ ap (λ x. is_all x (length b.out_buffer)) h
          ∙ is_all_self (length b.out_buffer)),
    write_answer b o os n v ne e ∙ rw less,
  )
]

-- After a partial send of `n` bytes, which is reported as a failure, the next call sends the buffer
-- from its start again, if it is smaller than 2 ^ 31 bytes: the peer is sent the first `n` bytes twice.
pub write_from_buffer_repeats :
    (b : Buffered) (n : ℕ) (os : List (Option ℕ))
    → NoNull b.listeners
    → is_valid b.socket ≡ true
    → n < length b.out_buffer
    → length b.out_buffer < 2147483648
    → b.outgoing ≡ some n ∷ some (length b.out_buffer) ∷ os
    → (b₁ b₂ : Buffered) × (write_from_buffer b ≡ some (false, b₁))
      × (write_from_buffer b₁ ≡ some (true, b₂))
      × (b₂.wire ≡ (b.wire ++ take n b.out_buffer) ++ b.out_buffer)
write_from_buffer_repeats b n os nn v lt small e = (
  first,
  some_written first (some (length b.out_buffer)) os,
  write_answer b (some n) (some (length b.out_buffer) ∷ os) nn v nonempty e
      ∙ rw (less (length b.out_buffer) lt small),
  write_answer first (some (length b.out_buffer)) os nn v nonempty refl
      ∙ rw (is_all_self (length b.out_buffer)),
  ap (◌++◌ (b.wire ++ take n b.out_buffer)) (take-length b.out_buffer),
)
  where
    first : Buffered
    first = part_written b (some n) (some (length b.out_buffer) ∷ os)

    nonempty : b.out_buffer ≢ []
    nonempty h = absurd (omega (arith, ap length h))

    less : (size : ℕ) → n < size → size < 2147483648 → is_all (some n) size ≡ false
    less size h small = ground (arith, fits size (omega arith), fits n (omega arith))
