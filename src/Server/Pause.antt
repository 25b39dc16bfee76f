-- ===== src/Server/Pause.antt =====
-- `sync::server::wait_time`. Times are pairs of seconds and microseconds. The difference of the
-- seconds is compared without being formed, as it can be negative.
use native.Mathlib.Nat.{div-le_self}
use libcoda_net.Base.{
  ℕ, zero, suc, ◌+◌, ◌-◌, ◌*◌, ◌/◌, ◌≤◌, ◌<◌, true, false, ◌&&◌, ◌||◌, Option, none, some, ltb, leb,
  ◌==◌, if◌then◌else◌, ◌≡◌, ◌≢◌, arith,
}

pub record Time : Type 0 where
  pub sec : ℕ
  pub usec : ℕ

abbrev pub IsTime : Time → Type 0
IsTime t = t.usec < 1000000

-- The loop `while (usecDelta >= 1000000)`, over the seconds that it adds, on fuel.
unfoldable pub carry : ℕ → ℕ → ℕ → ℕ × ℕ
carry zero sec usec = (sec, usec)
carry (suc fuel) sec usec = elim (leb 1000000 usec) [
  | true ↦ carry fuel (suc sec) (usec - 1000000)
  | false ↦ (sec, usec)
]

-- `stall_time` for the seconds that were added and the microseconds that are left.
unfoldable pub stall : Time → Time → ℕ × ℕ → Time
stall last now (added, usec) =
    if ltb now.sec (last.sec + added) || (now.sec == last.sec + added && ltb 0 usec)
    then record { sec = last.sec + added - now.sec; usec = usec }
    else record { sec = 0; usec = 0 }

-- The result and the caller's `last_time`: `none` is a null pointer. The clock is read twice, `now`
-- and then `later`. The microseconds are never negative for times that are valid, so that the first
-- loop of the source does not run.
unfoldable pub wait_time : ℕ → Option Time → Time → Time → Option Time × Option Time
unfolding carry stall
wait_time frequency none now later = (none, none)
wait_time frequency (some last) now later = if frequency == 0 then (none, some last) else (
  some (stall last now (carry 2 0 ((last.usec + 1000000 - now.usec) / frequency))),
  some later,
)

-- With two rounds of fuel the loop ends by its test.
carry-lt :
    (usec : ℕ)
    → usec < 2000000
    → ((carry 2 0 usec).1 < 1000000) × ((carry 2 0 usec).0 * 1000000 + (carry 2 0 usec).1 ≡ usec)
unfolding carry
carry-lt usec h = ground arith

IsBounded : Time → ℕ → Type 0
IsBounded t limit = IsTime t × (t.sec * 1000000 + t.usec ≤ limit)

stall-IsBounded :
    (last now : Time) (added usec : ℕ)
    → last.sec ≤ now.sec
    → usec < 1000000
    → IsBounded (stall last now (added, usec)) (added * 1000000 + usec)
unfolding stall IsBounded
stall-IsBounded last now added usec le lt = ground arith

-- For a frequency that is not zero, times that are valid and a clock that has not gone back, the
-- pause is a valid time of at most (last.usec + 1000000 - now.usec) / frequency microseconds, and the
-- last time becomes that of the second reading of the clock.
pub wait_time_bounds :
    (frequency : ℕ) (last now later : Time)
    → frequency ≢ 0
    → IsTime last
    → IsTime now
    → last.sec * 1000000 + last.usec ≤ now.sec * 1000000 + now.usec
    → (t : Time) × (wait_time frequency (some last) now later ≡ (some t, some later))
      × IsTime t
      × (t.sec * 1000000 + t.usec ≤ (last.usec + 1000000 - now.usec) / frequency)
unfolding wait_time IsBounded
wait_time_bounds frequency last now later f hl hn mono =
    let q = (last.usec + 1000000 - now.usec) / frequency in
    let small : q < 2000000 =
      (let d = div-le_self (last.usec + 1000000 - now.usec) frequency in omega arith) in
    let (lt, sum) = carry-lt q small in
    let (ok, short) = stall-IsBounded last now (carry 2 0 q).0 (carry 2 0 q).1 (omega arith) lt in
    (
      stall last now (carry 2 0 q),
      (ground arith),
      ok,
      (let e = sum in let l = short in omega arith),
    )
