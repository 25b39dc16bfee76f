-- ===== src/Async/Stuck.antt =====
-- A client whose peer has closed the connection, and the accept loop behind it.
use mathlib.Core.Path.{subst}
use libcoda_net.Base.{
  ℕ, zero, suc, ◌+◌, ◌≤◌, Bool, true, false, some, List, ◌∷◌, ◌++◌, Bytes, length, ◌≡◌, refl, ap,
  sym, ◌∙◌, Option, none, arith,
}
use libcoda_net.Buffered.{Buffered, Received}
use libcoda_net.Buffered.Receive.{told_read}
use libcoda_net.Async.{round, after_read}
use libcoda_net.Async.Delivery.{IsIdle, ends, round-IsIdle, read-ended}
use libcoda_net.Async.Threads.{
  Thread, running, joining, System, IsNewestEnded, after_round, Runs, here, there, Step, tests,
  fails, accepts, joins, leaves, stops, Interleaving, stay, step, round_of,
}
use libcoda_net.Async.Serial.{running_count, older, joined, newest-older}

-- The newest client is idle and its peer has closed the connection; the script of its answers lasts
-- for the rounds that are to come.
record IsSpinning (later : ℕ) (ts : List Thread) : Type 0 where
  client : Buffered
  others : List Thread
  rounds : ℕ
  rest : List Received
  newest_runs : ts ≡ running client ∷ others
  idle : IsIdle client
  gone : client.incoming ≡ ends rounds ++ rest
  enough : later ≤ rounds

module _ (filter : Bytes → Bytes) where
  Runs-length : {ts ts' : List Thread} → Runs filter ts ts' → length ts' ≡ length ts
  Runs-length (here e) = refl
  Runs-length (there r) = ap suc (Runs-length r)

  module _ (create : ℕ → Buffered) where
    idle_again :
        (k : ℕ) (rest : List Received) (b : Buffered)
        → IsIdle b
        → IsIdle (record (told_read filter b) { incoming = ends k ++ rest })
    idle_again k rest b i = record {
      no_null = i.no_null;
      connected = i.connected;
      blocking = i.blocking;
      nothing_to_send = i.nothing_to_send;
    }

    -- The round of a client whose peer has closed the connection.
    round-ended :
        (k : ℕ) (rest : List Received) (b : Buffered)
        → IsIdle b
        → b.incoming ≡ ends (suc k) ++ rest
        → round filter b ≡ some (true, record (told_read filter b) { incoming = ends k ++ rest })
    unfolding after_read
    round-ended k rest b i e =
        round-IsIdle filter b i ∙ ap after_read (read-ended filter (ends k ++ rest) b i e)

    abbrev started : List Thread → Option (Bool × Buffered) → List Thread
    started ts none = ts
    started ts (some (goes_on, b)) = after_round goes_on b ∷ ts

    Runs-client :
        {b : Buffered} {others ts : List Thread} (later k : ℕ) (rest : List Received)
        → IsIdle b
        → b.incoming ≡ ends (suc k) ++ rest
        → later ≤ k
        → Runs filter (running b ∷ others) ts
        → IsSpinning later ts
    unfolding after_round
    Runs-client {b} {others} later k rest i g l (here e) = record {
      client = record (told_read filter b) { incoming = ends k ++ rest };
      others = others;
      rounds = k;
      rest = rest;
      newest_runs = ap (started others) (sym e ∙ round-ended k rest b i g);
      idle = idle_again k rest b i;
      gone = refl;
      enough = l;
    }
    Runs-client {b} later k rest i g l (there {ts'} r) = record {
      client = b;
      others = ts';
      rounds = suc k;
      rest = rest;
      newest_runs = refl;
      idle = i;
      gone = g;
      enough = omega (arith, l);
    }

    Runs-IsSpinning :
        {ts ts' : List Thread} (later : ℕ)
        → IsSpinning (suc later) ts
        → Runs filter ts ts'
        → IsSpinning later ts'
    Runs-IsSpinning {ts} {ts'} later sp r = by_rounds sp.rounds sp.gone sp.enough
      where
        by_rounds :
            (k : ℕ) → sp.client.incoming ≡ ends k ++ sp.rest → suc later ≤ k → IsSpinning later ts'
        by_rounds zero g l = absurd (omega (arith, l))
        by_rounds (suc k) g l =
            Runs-client later k sp.rest sp.idle g (omega (arith, l))
              (subst (λ x. Runs filter x ts') sp.newest_runs r)

    weaker : {m later : ℕ} {ts : List Thread} → later ≤ m → IsSpinning m ts → IsSpinning later ts
    weaker l sp = record {
      client = sp.client;
      others = sp.others;
      rounds = sp.rounds;
      rest = sp.rest;
      newest_runs = sp.newest_runs;
      idle = sp.idle;
      gone = sp.gone;
      enough = omega (arith, l, sp.enough);
    }

    runs_still : {m : ℕ} {ts : List Thread} → IsSpinning m ts → IsNewestEnded ts → ⊥
    unfolding older
    runs_still sp n = omega (
      arith,
      newest-older n,
      ap running_count sp.newest_runs,
      ap (λ x. running_count (older x)) sp.newest_runs,
    )

    -- What a step leaves of a loop that joins a client that runs.
    Step-joining :
        {m : ℕ} {s t : System}
        → s.loop ≡ joining
        → IsSpinning m s.threads
        → Step create false s t
        → (t.loop ≡ joining) × (t.threads ≡ s.threads)
    Step-joining j sp (tests e v) = absurd (omega (arith, ap joined (sym e ∙ j)))
    Step-joining j sp (fails e) = absurd (omega (arith, ap joined (sym e ∙ j)))
    Step-joining j sp (accepts fd b e made) = absurd (omega (arith, ap joined (sym e ∙ j)))
    Step-joining j sp (joins e n) = absurd (runs_still sp n)
    Step-joining j sp (leaves e v) = absurd (omega (arith, ap joined (sym e ∙ j)))
    Step-joining j sp stops = (j, refl)

    Interleaving-joining :
        {s : System} {n : ℕ} {t : System} (m later : ℕ)
        → s.loop ≡ joining
        → IsSpinning m s.threads
        → n + later ≤ m
        → Interleaving filter create false s n t
        → (t.loop ≡ joining) × IsSpinning later t.threads × (length t.threads ≡ length s.threads)
    Interleaving-joining m later j sp l stay = (j, weaker (omega (arith, l)) sp, refl)
    Interleaving-joining m later j sp l (step p d) =
        let (j', sp', same) = Interleaving-joining m later j sp l p in
        let (j'', kept) = Step-joining j' sp' d in
        (j'', subst (IsSpinning later) (sym kept) sp', ap length kept ∙ same)
    Interleaving-joining m later j sp l (round_of p r) =
        let (j', sp', same) = Interleaving-joining m (suc later) j sp (omega (arith, l)) p in
        (j', Runs-IsSpinning later sp' r, Runs-length r ∙ same)

    -- Where the factory keeps no pointer and the newest client is idle and its peer has closed the
    -- connection, whatever the threads do next: for as many rounds as the system goes on to answer with
    -- the end of the stream, the loop stays in its `join`, and no client is accepted.
    pub never_accepts :
        (m n : ℕ) (s t : System) (b : Buffered) (ts : List Thread) (rest : List Received)
        → s.loop ≡ joining
        → s.threads ≡ running b ∷ ts
        → IsIdle b
        → b.incoming ≡ ends m ++ rest
        → n ≤ m
        → Interleaving filter create false s n t
        → (t.loop ≡ joining) × (length t.threads ≡ length s.threads)
    never_accepts m n s t b ts rest j e i g l p =
        let spins : IsSpinning m s.threads = record {
          client = b;
          others = ts;
          rounds = m;
          rest = rest;
          newest_runs = e;
          idle = i;
          gone = g;
          enough = omega arith;
        } in
        let (j', sp, same) = Interleaving-joining m 0 j spins (omega (arith, l)) p in (j', same)
