-- ===== src/Server/Tests.antt =====
-- The theorems on servers at concrete settings and answers.
use libcoda_net.Base.{
  List, All, suc, Option, inl, ℕ, true, false, some, none, [], ◌∷◌, ◌≡◌, refl, arith, ◌+◌, ◌*◌, ◌-◌,
  ◌/◌, ◌≤◌,
}
use libcoda_net.Socket.{fresh, bound}
use libcoda_net.Server.{Connection, FdSet, clear, is_set}
use libcoda_net.Server.Start.{Server, start}
use libcoda_net.Server.Pause.{Time, IsTime, wait_time, wait_time_bounds}
use libcoda_net.Server.Select.{
  accept_new, insert, listen, Poller, Selected, ready, polls, poll, after_selected, after_select,
  after_answer, serve_all, iterate_connections, transfer, read_ready, write_ready, keep_entry,
  clear_entry,
}
use libcoda_net.Server.Epoll
use libcoda_net.Server.Epoll.{
  Event, Watcher, on_events, on_event, after_wait, on_error, close_found, on_connection,
  find_socket,
}
use libcoda_net.Server.Watching.{polls_never_read, IsEpoll}
use libcoda_net.Server.Limit.{polls_limit, out_of}
use libcoda_net.Server.Sockets.{IsOrdered}
use libcoda_net.Server.Serving.{IsKeyed, KeepsSocket}
use libcoda_net.Server.Survivors.{each_served, iterate_connections-each}
use libcoda_net.Server.Tracking.{polls_track}
use libcoda_net.Server.Covering.{IsCovered}
use libcoda_net.Server.Fairness.{polls_starve, clear-IsSubset, descriptors, in_of}

abbrev idle : Server
idle = record { socket = fresh; has_factory = true; running = false; fds = 3 ∷ [] }

abbrev failed : Server
failed = (start (λ s. s) (some (bound 4 ∷ [])) false true idle).1

abbrev earlier : Time
earlier = record { sec = 10; usec = 0 }

abbrev later : Time
later = record { sec = 10; usec = 100000 }

wait_time_bounds_example :
    (t : Time) × (wait_time 4 (some earlier) later later ≡ (some t, some later))
    × IsTime t
    × (t.sec * 1000000 + t.usec ≤ (0 + 1000000 - 100000) / 4)
wait_time_bounds_example =
    wait_time_bounds 4 earlier later later (omega arith) (omega arith) (omega arith) (omega arith)

wait_run :
    wait_time 4 (some earlier) later later ≡ (some (record { sec = 0; usec = 225000 }), some later)
unfolding wait_time
wait_run = refl

-- Connections that are descriptors, always with output, and whose transfers succeed.
abbrev peers : Connection
peers = record {
  Conn = ℕ;
  raw_socket = λ c. c;
  is_valid = λ c. true;
  has_output = λ c. true;
  read_to_buffer = λ c. (true, c);
  write_from_buffer = λ c. (true, c);
}

abbrev poller : FdSet → Poller ℕ
poller ins = record {
  valid = true;
  listening = 3;
  sockets = (4, 4) ∷ [];
  in_set = ins;
  out_set = 4 ∷ [];
  max_desc = 4;
}

-- A `select` at a time when no one connects to descriptor 3.
abbrev quiet : ℕ → ℕ → FdSet → FdSet → Selected
quiet time limit ins outs = ready (clear 3 ins) outs

polls_starve_example : is_set 4 (descriptors (poller (3 ∷ 4 ∷ [])).sockets) ≡ true
unfolding polls poll after_selected after_select after_answer serve_all iterate_connections transfer
    read_ready write_ready keep_entry clear_entry is_set clear descriptors in_of
polls_starve_example =
    polls_starve peers quiet (some (5, 5)) (some (6, 6) ∷ none ∷ []) (poller (3 ∷ 4 ∷ []))
      (poller (4 ∷ [])) 4 (λ t limit ins outs. clear-IsSubset 3 ins) refl refl refl refl

abbrev unstarted : Poller ℕ
unstarted = record {
  valid = true;
  listening = 3;
  sockets = [];
  in_set = [];
  out_set = [];
  max_desc = 0;
}

-- A `select` that reports all that it is asked for.
abbrev busy : ℕ → ℕ → FdSet → FdSet → Selected
busy time limit ins outs = ready ins outs

abbrev two_accepted : Poller ℕ
two_accepted = record {
  valid = true;
  listening = 3;
  sockets = (5, 5) ∷ (7, 7) ∷ [];
  in_set = 5 ∷ 7 ∷ 3 ∷ [];
  out_set = 5 ∷ 7 ∷ [];
  max_desc = 7;
}

polls_limit_example : 7 ≤ two_accepted.max_desc
unfolding polls poll after_selected after_select after_answer serve_all iterate_connections transfer
    read_ready write_ready keep_entry clear_entry is_set clear accept_new insert listen in_of out_of
polls_limit_example =
    polls_limit peers busy (some (7, 7) ∷ some (5, 5) ∷ []) unstarted two_accepted 7
      (λ t limit ins outs x h. h) (λ t limit ins outs x h. h) refl refl refl (inl refl)

-- Connections with the number of times that they were read.
abbrev counted : Connection
counted = record {
  Conn = ℕ × ℕ;
  raw_socket = λ c. c.0;
  is_valid = λ c. true;
  has_output = λ c. true;
  read_to_buffer = λ c. (true, (c.0, suc c.1));
  write_from_buffer = λ c. (true, c);
}

abbrev arrival : ℕ → Event
arrival fd = record { fd = fd; has_error = false; readable = true; writable = false }

-- An `epoll_wait` that always reports the first descriptor.
unfoldable first_ready : FdSet → Option (List Event)
first_ready [] = some []
first_ready (fd ∷ s) = some (arrival fd ∷ [])

first_ready-IsEpoll : IsEpoll first_ready
unfolding first_ready is_set
first_ready-IsEpoll [] es e = (let at : [] ≡ es = cc e in rw⁻¹ at tt)
first_ready-IsEpoll (fd ∷ s) es e =
    (let at : arrival fd ∷ [] ≡ es = cc e in rw⁻¹ at (((ground arith), refl), tt))

abbrev watcher : List (ℕ × (ℕ × ℕ)) → Watcher (ℕ × ℕ)
watcher cs = record { valid = true; listening = 3; created = true; interest = 3 ∷ []; sockets = cs }

-- The time of its poll is the descriptor of a connection that is accepted.
abbrev next_peer : ℕ → ℕ → Option (ℕ × (ℕ × ℕ))
next_peer time i = some (time + 5, (time + 5, 0))

next_peer-unread : (time i : ℕ) (x : ℕ × (ℕ × ℕ)) → next_peer time i ≡ some x → x.1.1 ≡ 0
next_peer-unread time i x e = (let at : (time + 5, (time + 5, 0)) ≡ x = cc e in rw⁻¹ at refl)

polls_never_read_example : All (λ (x : ℕ × (ℕ × ℕ)). x.1.1 ≡ 0) ((5, (5, 0)) ∷ (6, (6, 0)) ∷ [])
unfolding Epoll.polls Epoll.poll Epoll.listen after_wait on_events on_event on_error close_found
    on_connection find_socket insert first_ready
polls_never_read_example =
    polls_never_read counted (λ x. x.1.1 ≡ 0) (λ time. first_ready) next_peer 2 (watcher [])
      (watcher ((5, (5, 0)) ∷ (6, (6, 0)) ∷ [])) (λ time. first_ready-IsEpoll) next_peer-unread refl
      refl refl

peers-KeepsSocket : KeepsSocket peers
peers-KeepsSocket = record { reads = λ c. refl; writes = λ c. refl }

polls_track_example :
    IsOrdered two_accepted.sockets
    × IsKeyed peers two_accepted.sockets
    × IsCovered 3 two_accepted.sockets two_accepted.in_set
    × IsCovered 3 two_accepted.sockets two_accepted.out_set
unfolding polls poll after_selected after_select after_answer serve_all iterate_connections transfer
    read_ready write_ready keep_entry clear_entry is_set clear accept_new insert listen in_of out_of
polls_track_example =
    polls_track peers peers-KeepsSocket busy (some (7, 7) ∷ some (5, 5) ∷ []) unstarted two_accepted
      (λ t limit ins outs x h. h) (λ t limit ins outs x h. h) ((refl, refl), ((refl, refl), tt))
      refl refl refl refl

iterate_connections-each_example :
    (iterate_connections peers two_accepted.sockets (5 ∷ []) (7 ∷ [])).0
    ≡ each_served peers (5 ∷ []) (7 ∷ []) two_accepted.sockets
iterate_connections-each_example =
    iterate_connections-each peers two_accepted.sockets (5 ∷ []) (7 ∷ []) peers-KeepsSocket
      (refl, (refl, tt)) ((omega arith, tt), (tt, tt))
