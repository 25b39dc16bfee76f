-- ===== src/Async/Serial.antt =====
-- A factory that keeps no pointer: the asynchronous server serves one client after the other.
use libcoda_net.Base.{ℕ, suc, ◌≤◌, Bool, true, false, List, [], ◌∷◌, Bytes, ◌≡◌, refl, ap, arith}
use libcoda_net.Buffered.{Buffered}
use libcoda_net.Async.Threads.{
  Thread, running, ended, Loop, head, accepting, joining, left, System, init, IsNewestEnded, newest,
  after_round, Runs, here, there, Step, tests, fails, accepts, joins, leaves, stops, Interleaving,
  stay, step, round_of,
}

-- How many of the threads run.
abbrev pub running_count : List Thread → ℕ
running_count [] = 0
running_count (running b ∷ ts) = suc (running_count ts)
running_count (ended b ∷ ts) = running_count ts

unfoldable pub older : List Thread → List Thread
older [] = []
older (t ∷ ts) = ts

abbrev pub joined : Loop → ℕ
joined joining = 1
joined _ = 0

-- Only the newest thread may run, and only while the loop joins it.
record Alone (s : System) : Type 0 where
  newest_only : running_count (older s.threads) ≡ 0
  joins_it : running_count s.threads ≤ joined s.loop

after_round_count :
    (goes_on : Bool) (b : Buffered) (ts : List Thread)
    → running_count (after_round goes_on b ∷ ts) ≤ suc (running_count ts)
unfolding after_round
after_round_count true b ts = omega arith
after_round_count false b ts = omega arith

pub newest-older :
    {ts : List Thread} → IsNewestEnded ts → running_count ts ≡ running_count (older ts)
unfolding older
newest-older newest = refl

none_run : (s : System) → Alone s → joined s.loop ≡ 0 → running_count s.threads ≡ 0
none_run s a e = omega (arith, a.joins_it, e)

module _ (filter : Bytes → Bytes) where
  Runs-count : {ts ts' : List Thread} → Runs filter ts ts' → running_count ts' ≤ running_count ts
  Runs-count (here {b'} {goes_on} {ts} e) = after_round_count goes_on b' ts
  Runs-count (there {t = running b} r) = omega (arith, Runs-count r)
  Runs-count (there {t = ended b} r) = Runs-count r

  Runs-older :
      {ts ts' : List Thread}
      → Runs filter ts ts'
      → running_count (older ts') ≤ running_count (older ts)
  unfolding older
  Runs-older (here e) = omega arith
  Runs-older (there r) = Runs-count r

  module _ (create : ℕ → Buffered) where
    Step-Alone : {s t : System} → Alone s → Step create false s t → Alone t
    unfolding older
    Step-Alone {s} a (tests e v) = record {
      newest_only = a.newest_only;
      joins_it = omega (arith, none_run s a (ap joined e));
    }
    Step-Alone {s} a (fails e) = record {
      newest_only = a.newest_only;
      joins_it = omega (arith, none_run s a (ap joined e));
    }
    Step-Alone {s} a (accepts fd b e made) =
        let none = none_run s a (ap joined e) in
        record { newest_only = none; joins_it = omega (arith, none) }
    Step-Alone {s} a (joins e n) = record {
      newest_only = a.newest_only;
      joins_it = omega (arith, newest-older n, a.newest_only);
    }
    Step-Alone {s} a (leaves e v) = record {
      newest_only = a.newest_only;
      joins_it = omega (arith, none_run s a (ap joined e));
    }
    Step-Alone a stops = record { newest_only = a.newest_only; joins_it = a.joins_it }

    Interleaving-Alone :
        {s : System} {n : ℕ} {t : System}
        → Alone s
        → Interleaving filter create false s n t
        → Alone t
    Interleaving-Alone a stay = a
    Interleaving-Alone a (step p d) = Step-Alone (Interleaving-Alone a p) d
    Interleaving-Alone a (round_of {t} p r) =
        let before = Interleaving-Alone a p in
        record {
          newest_only = omega (arith, Runs-older r, before.newest_only);
          joins_it = omega (arith, Runs-count r, before.joins_it);
        }

    init-Alone : Alone init
    unfolding older
    init-Alone = record { newest_only = refl; joins_it = omega arith }

    joined_only : (l : Loop) → 1 ≤ joined l → l ≡ joining
    joined_only joining h = refl
    joined_only head h = absurd (omega (arith, h))
    joined_only accepting h = absurd (omega (arith, h))
    joined_only left h = absurd (omega (arith, h))

    -- Where the factory keeps no pointer, in every state that any interleaving of the accept loop, the
    -- rounds of the clients and `stop` leads to, at most one client's thread runs, and while one does,
    -- the loop is in its `join` and accepts nothing.
    pub one_at_a_time :
        (n : ℕ) (s : System)
        → Interleaving filter create false init n s
        → (running_count s.threads ≤ 1) × (1 ≤ running_count s.threads → s.loop ≡ joining)
    one_at_a_time n s p =
        let a = Interleaving-Alone init-Alone p in
        (
          omega (arith, joined-le s.loop, a.joins_it),
          λ some_run. joined_only s.loop (omega (arith, some_run, a.joins_it)),
        )
      where
        joined-le : (l : Loop) → joined l ≤ 1
        joined-le joining = omega arith
        joined-le head = omega arith
        joined-le accepting = omega arith
        joined-le left = omega arith
