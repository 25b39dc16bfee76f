-- ===== src/Server/Sync/Pauses.antt =====
-- The pauses that the loop of the server gives to its poller.
use native.Mathlib.Nat.{le-div_iff_mul-le}
use libcoda_net.Base.{
  ℕ, zero, suc, ◌+◌, ◌*◌, ◌≤◌, true, false, Option, none, some, List, [], ◌∷◌, ◌≡◌, ◌≢◌, ◌∙◌, refl,
  ap, sym, arith, Bool-cases, inl, inr,
}
use libcoda_net.Server.Pause.{Time, IsTime, wait_time, wait_time_bounds}
use libcoda_net.Server.Select.{Poller}
use libcoda_net.Server.Sync.{
  Sync, Clock, Polling, is_valid, seen, on_poll, notify, polled, poll, run,
}

-- A pause that is a valid time, and that `frequency` times over is under two seconds.
abbrev pub IsPause : ℕ → Option Time → Type 0
IsPause frequency none = ⊥
IsPause frequency (some t) = IsTime t × ((t.sec * 1000000 + t.usec) * frequency ≤ 1999999)

-- The readings of the clock are valid times, and none goes back behind the reading that ended the
-- round before it.
abbrev pub IsClocked : {C : Type 0} → Time → List (Clock × Option (ℕ × C)) → Type 0
IsClocked last [] = Unit
IsClocked last ((clock, accepted) ∷ rounds) =
    IsTime clock.now
    × IsTime clock.later
    × (last.sec * 1000000 + last.usec ≤ clock.now.sec * 1000000 + clock.now.usec)
    × IsClocked clock.later rounds

wait_time-IsPause :
    (frequency : ℕ) (last now later : Time)
    → frequency ≢ 0
    → IsTime last
    → IsTime now
    → last.sec * 1000000 + last.usec ≤ now.sec * 1000000 + now.usec
    → IsPause frequency (wait_time frequency (some last) now later).0
      × ((wait_time frequency (some last) now later).1 ≡ some later)
wait_time-IsPause zero last now later f hl hn mono = absurd (f refl)
wait_time-IsPause (suc n) last now later f hl hn mono =
    let (t, e, valid, bound) = wait_time_bounds (suc n) last now later f hl hn mono in
    let scaled = le-div_iff_mul-le {k = suc n} (omega arith) in
    rw e ((valid, (let b = scaled.0 bound in omega arith)), refl)

module _ {C : Type 0} where
  -- One round of a valid server.
  run-round :
      (polling : ℕ → Polling C) (time : ℕ) (clock : Clock) (accepted : Option (ℕ × C))
      (rounds : List (Clock × Option (ℕ × C))) (last : Option Time) (s : Sync C)
      → is_valid s ≡ true
      → s.has_impl ≡ true
      → let pause = wait_time s.frequency last clock.now clock.later in
        run polling time ((clock, accepted) ∷ rounds) (some (last, s))
        ≡ run polling (1 + time) rounds (polled pause.1 s (polling time pause.0 accepted (seen s)))
  unfolding run poll
  run-round polling time clock accepted rounds last s v h = rw (v, h) refl

  run-closed :
      (polling : ℕ → Polling C) (time : ℕ) (rounds : List (Clock × Option (ℕ × C)))
      (last : Option Time) (s : Sync C)
      → is_valid s ≡ false
      → run polling time rounds (some (last, s)) ≡ some (last, s)
  unfolding run
  run-closed polling time [] last s v = refl
  run-closed polling time ((clock, accepted) ∷ rounds) last s v = rw v refl

  module _ (p q : ℕ → Polling C) where
    -- Two runs go on alike behind a poll that was answered alike.
    behind_poll :
        (time : ℕ) (rounds : List (Clock × Option (ℕ × C))) (last : Time) (s : Sync C)
        (o : Option (Poller C))
        → ((x : Poller C)
            → let next = notify on_poll (record s { poller = x }) in
              run p time rounds (some (some last, next))
              ≡ run q time rounds (some (some last, next)))
        → run p time rounds (polled (some last) s o) ≡ run q time rounds (polled (some last) s o)
    unfolding polled run
    behind_poll time [] last s none again = refl
    behind_poll time (r ∷ rounds) last s none again = refl
    behind_poll time rounds last s (some x) again = again x

    -- A server with a frequency, a last time and a clock that does not go back gives its poller, in
    -- every round of its loop, a pause that is a valid time and that `frequency` times over is under
    -- two seconds, and never none: two pollers that answer alike for all such pauses leave the same
    -- behind the loop, the server, its last time and its exception.
    pub run-IsPause :
        (time : ℕ) (rounds : List (Clock × Option (ℕ × C))) (last : Time) (s : Sync C)
        → ((t : ℕ) (pause : Option Time) (accepted : Option (ℕ × C)) (x : Poller C)
            → IsPause s.frequency pause
            → p t pause accepted x ≡ q t pause accepted x)
        → s.has_impl ≡ true
        → s.frequency ≢ 0
        → IsTime last
        → IsClocked last rounds
        → run p time rounds (some (some last, s)) ≡ run q time rounds (some (some last, s))
    unfolding run notify
    run-IsPause time [] last s alike h f l c = refl
    run-IsPause time ((clock, accepted) ∷ rounds) last s alike h f l (n, later, mono, c) =
        elim (Bool-cases (is_valid s)) [
          | inl v ↦
              let pause = wait_time s.frequency (some last) clock.now clock.later in
              let (bounded, kept) =
                wait_time-IsPause s.frequency last clock.now clock.later f l n mono in
              run-round p time clock accepted rounds (some last) s v h
              ∙ ap (λ a. run p (1 + time) rounds (polled a s (p time pause.0 accepted (seen s))))
                  kept
              ∙ behind_poll (1 + time) rounds clock.later s (p time pause.0 accepted (seen s)) (λ x.
                run-IsPause (1 + time) rounds clock.later (notify on_poll (record s { poller = x }))
                  alike h f later c)
              ∙ ap (λ o. run q (1 + time) rounds (polled (some clock.later) s o))
                  (alike time pause.0 accepted (seen s) bounded)
              ∙ ap (λ a. run q (1 + time) rounds (polled a s (q time pause.0 accepted (seen s))))
                  (sym kept)
              ∙ sym (run-round q time clock accepted rounds (some last) s v h)
          | inr v ↦
              run-closed p time ((clock, accepted) ∷ rounds) (some last) s v
              ∙ sym (run-closed q time ((clock, accepted) ∷ rounds) (some last) s v)
        ]
