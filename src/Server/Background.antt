-- ===== src/Server/Background.antt =====
-- `start_in_background` and `stop`: the thread that runs the loop of `sync::server` on select, and the
-- thread that stops it. They share the descriptor of the server. A step is one test or one call; a call
-- of `select` that gives an error ends the program, and is no step.
use libcoda_net.Base.{
  ℕ, suc, ◌+◌, ◌≤◌, Option, none, some, ◌≡◌, refl, sym, ◌∙◌, arith, ◌⊎◌, inl, inr,
}

-- Where the loop stands: at `while`, in `server::poll`, in `impl::poll`, behind its test, in `select` and
-- at FD_ISSET, both with the descriptor that it read before (FD_ISSET of INVALID reads outside the set;
-- the model goes on behind it with either answer), in `notify_poll`, and behind the loop.
pub data Worker : Type 0 where
  at_while in_poll in_impl tested : Worker
  selecting at_isset : Option ℕ → Worker
  telling ended : Worker

-- Where the other thread stands: before `stop`, behind its `close`, and behind its `join`.
pub data Owner : Type 0 where
  before_close joining joined : Owner

pub record Shared : Type 0 where
  pub sock : Option ℕ
  pub worker : Worker
  pub owner : Owner

-- A step of the thread that runs the loop, by the descriptor of the server.
pub data Move (sock : Option ℕ) : Worker → Worker → Type 0 where
  enters : (fd : ℕ) → sock ≡ some fd → Move sock at_while in_poll
  ends : sock ≡ none → Move sock at_while ended
  polls : (fd : ℕ) → sock ≡ some fd → Move sock in_poll in_impl
  skips : sock ≡ none → Move sock in_poll at_while
  tests : (fd : ℕ) → sock ≡ some fd → Move sock in_impl tested
  returns : sock ≡ none → Move sock in_impl telling
  reads : Move sock tested (selecting sock)
  selects : (fd : Option ℕ) → Move sock (selecting fd) (at_isset fd)
  serves : (fd : Option ℕ) → Move sock (at_isset fd) telling
  tells : Move sock telling at_while

-- A step of the thread that stops the server.
pub data Stops (s : Shared) : Shared → Type 0 where
  closes : s.owner ≡ before_close → Stops s (record s { sock = none; owner = joining })
  joins : s.owner ≡ joining → s.worker ≡ ended → Stops s (record s { owner = joined })

-- Any interleaving, and the number of steps of the loop in it.
pub data Course (s : Shared) : ℕ → Shared → Type 0 where
  stay : Course s 0 s
  work :
      {n : ℕ} {t : Shared} {w : Worker}
      → Course s n t
      → Move t.sock t.worker w
      → Course s (suc n) (record t { worker = w })
  stop : {n : ℕ} {t u : Shared} → Course s n t → Stops t u → Course s n u

-- How many steps the loop has left, once the server is closed.
abbrev pub left : Worker → ℕ
left ended = 0
left at_while = 1
left telling = 2
left (at_isset fd) = 3
left (selecting fd) = 4
left tested = 5
left in_impl = 3
left in_poll = 2

closed_none : {o : Option ℕ} {fd : ℕ} → o ≡ none → o ≡ some fd → ⊥
closed_none e v = cc (sym e ∙ v)

Move-left : {sock : Option ℕ} {v w : Worker} → sock ≡ none → Move sock v w → suc (left w) ≤ left v
Move-left e (enters fd v) = absurd (closed_none e v)
Move-left e (ends v) = omega arith
Move-left e (polls fd v) = absurd (closed_none e v)
Move-left e (skips v) = omega arith
Move-left e (tests fd v) = absurd (closed_none e v)
Move-left e (returns v) = omega arith
Move-left e reads = omega arith
Move-left e (selects fd) = omega arith
Move-left e (serves fd) = omega arith
Move-left e tells = omega arith

-- What a course of a closed server keeps.
Course-closed :
    {s : Shared} {n : ℕ} {t : Shared}
    → s.sock ≡ none
    → s.owner ≡ joining
    → Course s n t
    → (n + left t.worker ≤ left s.worker)
      × (t.sock ≡ none)
      × ((t.owner ≡ joined) ⊎ (t.owner ≡ joining))
Course-closed e o stay = (omega arith, e, inr o)
Course-closed e o (work c m) =
    let (before, closed, owner) = Course-closed e o c in
    (omega (arith, before, Move-left closed m), closed, owner)
Course-closed e o (stop c (closes b)) =
    let (before, closed, owner) = Course-closed e o c in (before, refl, inr refl)
Course-closed e o (stop c (joins b w)) =
    let (before, closed, owner) = Course-closed e o c in (before, closed, inl refl)

left-le : (w : Worker) → left w ≤ 5
left-le at_while = omega arith
left-le in_poll = omega arith
left-le in_impl = omega arith
left-le tested = omega arith
left-le (selecting fd) = omega arith
left-le (at_isset fd) = omega arith
left-le telling = omega arith
left-le ended = omega arith

-- A loop that has not ended can make a step.
next_step :
    (sock : Option ℕ) (v : Worker) → sock ≡ none → (v ≡ ended) ⊎ ((w : Worker) × Move sock v w)
next_step sock at_while e = inr (_, ends e)
next_step sock in_poll e = inr (_, skips e)
next_step sock in_impl e = inr (_, returns e)
next_step sock tested e = inr (_, reads)
next_step sock (selecting fd) e = inr (_, selects fd)
next_step sock (at_isset fd) e = inr (_, serves fd)
next_step sock telling e = inr (_, tells)
next_step sock ended e = inl refl

-- Once the server is closed, however the two threads are interleaved and as long as `select` returns
-- without an error, its loop makes at most five more steps, one of which is there until it has ended,
-- and when it has ended the `join` that waits for it returns.
pub stop_returns :
    (n : ℕ) (s t : Shared)
    → s.sock ≡ none
    → s.owner ≡ joining
    → Course s n t
    → (n ≤ 5)
      × (((w : Worker) × Move t.sock t.worker w)
          ⊎ ((t.worker ≡ ended)
              × ((t.owner ≡ joined) ⊎ ((u : Shared) × Stops t u × (u.owner ≡ joined)))))
stop_returns n s t e o c =
    let (steps, closed, owner) = Course-closed e o c in
    (
      omega (arith, steps, left-le s.worker),
      elim (next_step t.sock t.worker closed) [
        | inl done_ ↦
            inr (done_, elim owner [ inl j ↦ inl j | inr j ↦ inr (_, joins j done_, refl) ])
        | inr more ↦ inl more
      ],
    )

-- The test that the server is valid is not the call that reads its descriptor: where it is closed between
-- the two, FD_ISSET is given INVALID.
pub stop_race :
    (fd : ℕ)
    → Course
        (record { sock = some fd; worker = in_impl; owner = before_close })
        3
        (record { sock = none; worker = at_isset none; owner = joining })
stop_race fd = work (work (stop (work stay (tests fd refl)) (closes refl)) reads) (selects none)
