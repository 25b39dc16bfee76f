-- ===== src/Async/Threads.antt =====
-- The accept loop of `async::server` and the threads of its clients, interleaved round by round: a
-- client is only touched by its own thread. `on_connect` of a client starts its thread. The factory
-- may keep the pointer that it returns (`kept`); if it does not, the loop drops the last one, and the
-- destructor of the client joins its thread.
use libcoda_net.Base.{ℕ, suc, Bool, true, false, some, List, [], ◌∷◌, if◌then◌else◌, Bytes, ◌≡◌}
use libcoda_net.Buffered.{Buffered}
use libcoda_net.Server.Accept.{on_accept}
use libcoda_net.Async.{round}

pub data Thread : Type 0 where
  running : Buffered → Thread
  ended : Buffered → Thread

-- Where the loop stands: at its head, in `accept`, in the `join` of the newest client, behind it.
pub data Loop : Type 0 where
  head accepting joining left : Loop

-- The threads that were started, the newest first.
pub record System : Type 0 where
  pub valid : Bool
  pub loop : Loop
  pub threads : List Thread

abbrev pub init : System
init = record { valid = true; loop = head; threads = [] }

-- The newest client's thread has come to its end.
pub data IsNewestEnded : List Thread → Type 0 where
  newest : {b : Buffered} {ts : List Thread} → IsNewestEnded (ended b ∷ ts)

unfoldable pub after_round : Bool → Buffered → Thread
after_round true b = running b
after_round false b = ended b

-- A round of one thread. A thread that calls a null listener makes none.
pub data Runs (filter : Bytes → Bytes) : List Thread → List Thread → Type 0 where
  here :
      {b b' : Buffered} {goes_on : Bool} {ts : List Thread}
      → round filter b ≡ some (goes_on, b')
      → Runs filter (running b ∷ ts) (after_round goes_on b' ∷ ts)
  there : {t : Thread} {ts ts' : List Thread} → Runs filter ts ts' → Runs filter (t ∷ ts) (t ∷ ts')

abbrev pub after_accept : Bool → Loop
after_accept kept = if kept then head else joining

-- A step of the accept loop, or the call of `stop` by another thread.
pub data Step (create : ℕ → Buffered) (kept : Bool) (s : System) : System → Type 0 where
  tests : s.loop ≡ head → s.valid ≡ true → Step create kept s (record s { loop = accepting })
  fails : s.loop ≡ accepting → Step create kept s (record s { loop = head })
  accepts :
      (fd : ℕ) (b : Buffered)
      → s.loop ≡ accepting
      → on_accept create fd ≡ some b
      → Step create kept s (record s { loop = after_accept kept; threads = running b ∷ s.threads })
  joins : s.loop ≡ joining → IsNewestEnded s.threads → Step create kept s (record s { loop = head })
  leaves : s.loop ≡ head → s.valid ≡ false → Step create kept s (record s { loop = left })
  stops : Step create kept s (record s { valid = false })

module _ (filter : Bytes → Bytes) (create : ℕ → Buffered) (kept : Bool) where
  -- Any interleaving, and the number of rounds in it.
  pub data Interleaving (s : System) : ℕ → System → Type 0 where
    stay : Interleaving s 0 s
    step : {n : ℕ} {t u : System} → Interleaving s n t → Step create kept t u → Interleaving s n u
    round_of :
        {n : ℕ} {t : System} {ts : List Thread}
        → Interleaving s n t
        → Runs filter t.threads ts
        → Interleaving s (suc n) (record t { threads = ts })
