-- ===== src/Server/Sync/Tests.antt =====
-- The theorems on the whole server at concrete settings and answers.
use libcoda_net.Base.{◌⊎◌, ◌≤◌, ℕ, true, false, some, none, Option, arith, [], ◌∷◌, ◌≡◌, refl}
use libcoda_net.Socket.{fresh}
use libcoda_net.Server.{Connection}
use libcoda_net.Server.Pause.{Time}
use libcoda_net.Server.Select.{Poller}
use libcoda_net.Server.Background.{
  Shared, Worker, Move, Stops, selecting, ended, joining, joined, stop_returns, stay, work, selects,
  serves, tells, ends,
}
use libcoda_net.Server.Sync.{Sync, Clock, Polling, run}
use libcoda_net.Server.Sync.Pauses.{IsPause, run-IsPause}

abbrev echo : Connection
echo = record {
  Conn = ℕ;
  raw_socket = λ c. c;
  is_valid = λ c. true;
  has_output = λ c. false;
  read_to_buffer = λ c. (true, c);
  write_from_buffer = λ c. (true, c);
}

abbrev serving : Sync ℕ
serving = record {
  server = record {
    socket = record fresh { sock = some 3 };
    has_factory = true;
    running = true;
    fds = 3 ∷ 4 ∷ [];
  };
  has_impl = true;
  poller = record {
    valid = true;
    listening = 3;
    sockets = (4, 4) ∷ [];
    in_set = 4 ∷ 3 ∷ [];
    out_set = 4 ∷ [];
    max_desc = 4;
  };
  frequency = 4;
  listeners = 1 ∷ [];
  calls = [];
}

abbrev noon : Time
noon = record { sec = 43200; usec = 0 }

abbrev clock : Clock
clock = record { now = noon; later = noon }

-- A poller that is never told to wait, and one that fails if it is given no pause.
abbrev patient : ℕ → Polling ℕ
patient time pause accepted p = some p

abbrev strict : ℕ → Polling ℕ
strict time none accepted p = none
strict time (some t) accepted p = some p

alike :
    (t : ℕ) (pause : Option Time) (accepted : Option (ℕ × ℕ)) (x : Poller ℕ)
    → IsPause 4 pause
    → patient t pause accepted x ≡ strict t pause accepted x
alike t none accepted x h = absurd h
alike t (some pause) accepted x h = refl

run-IsPause_example :
    run patient 0 ((clock, none) ∷ (clock, none) ∷ []) (some (some noon, serving))
    ≡ run strict 0 ((clock, none) ∷ (clock, none) ∷ []) (some (some noon, serving))
run-IsPause_example =
    run-IsPause patient strict 0 ((clock, none) ∷ (clock, none) ∷ []) noon serving alike refl
      (omega arith) (omega arith) (omega arith)

-- A server that is closed while its loop is about to call `select`.
abbrev closing : Shared
closing = record { sock = none; worker = selecting (some 3); owner = joining }

abbrev closed : Shared
closed = record closing { worker = ended }

stop_returns_example :
    (4 ≤ 5)
    × (((w : Worker) × Move closed.sock closed.worker w)
        ⊎ ((closed.worker ≡ ended)
            × ((closed.owner ≡ joined) ⊎ ((u : Shared) × Stops closed u × (u.owner ≡ joined)))))
stop_returns_example =
    stop_returns 4 closing closed refl refl
      (work (work (work (work stay (selects (some 3))) (serves (some 3))) tells) (ends refl))
