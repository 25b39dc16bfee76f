-- ===== src/Async/Tests.antt =====
-- The loops at concrete answers.
use libcoda_net.Base.{ap, none, [], ◌∷◌, true, false, some, ascii, ◌≡◌, refl, ◌≤◌, length, arith}
use libcoda_net.Socket.{is_valid}
use libcoda_net.Buffered.{
  Buffered, block, failed, connected, notify, call_all, write_from_buffer, read_to_buffer,
  read_from,
}
use libcoda_net.Buffered.Receive.{told_read}
use libcoda_net.Server.Accept.{on_accept}
use libcoda_net.Socket.{Attempt, refused, connect_loop, returned}
use libcoda_net.Buffered.Connection.{connect}
use libcoda_net.Buffered.Objects.{empty, construct, construct_silent}
use libcoda_net.Async.Objects.{connect_client, after_connect, on_connect, terminated, connect_again}
use libcoda_net.Async.Threads.{
  System, init, running, joining, Interleaving, stay, step, round_of, here, tests, accepts,
  after_round,
}
use libcoda_net.Async.Serial.{running_count, one_at_a_time}
use libcoda_net.Async.Stuck.{never_accepts}
use libcoda_net.Async.{run, accept_all, round, after_write, after_read}
use libcoda_net.Async.Delivery.{IsIdle, ends, run_delivers}

abbrev client : Buffered
client = record {
  socket = record { sock = some 4; non_blocking = false; secure = false };
  in_buffer = [];
  out_buffer = [];
  listeners = some 1 ∷ [];
  fds = 4 ∷ [];
  incoming = block (ascii "ab") ∷ block (ascii "c") ∷ failed ∷ [];
  outgoing = [];
  wire = [];
  calls = [];
}

client-IsIdle : IsIdle client
client-IsIdle = record {
  no_null = (refl, tt);
  connected = refl;
  blocking = refl;
  nothing_to_send = refl;
}

run_delivers_example :
    (b' : Buffered) × (run (λ s. s) 3 client ≡ some (true, b'))
    × (is_valid b'.socket ≡ false)
    × (b'.in_buffer ≡ ascii "abc")
    × (b'.incoming ≡ [])
run_delivers_example =
    run_delivers (λ s. s) (ascii "ab" ∷ ascii "c" ∷ []) [] client client-IsIdle refl

abbrev left_alone : Buffered
left_alone = record client { in_buffer = ascii "x"; incoming = ends 5 }

left_alone-IsIdle : IsIdle left_alone
left_alone-IsIdle = record {
  no_null = (refl, tt);
  connected = refl;
  blocking = refl;
  nothing_to_send = refl;
}

accept_all_run : accept_all (λ fd. fd) true (none ∷ some 5 ∷ none ∷ some 6 ∷ []) ≡ 5 ∷ 6 ∷ []
unfolding accept_all
accept_all_run = refl

-- The client that is left alone, accepted by a factory that keeps nothing.
abbrev born : Buffered
born = record left_alone { calls = (none, connected) ∷ (some 1, connected) ∷ [] }

abbrev served : System
served = record { valid = true; loop = joining; threads = running born ∷ [] }

abbrev served_once : System
served_once = record served {
  threads = running (record (told_read (λ s. s) born) { incoming = ends 4 }) ∷ [];
}

init-served : Interleaving (λ s. s) (λ fd. left_alone) false init 0 served
unfolding on_accept notify call_all
init-served = step (step stay (tests refl refl)) (accepts 4 born refl refl)

served-once : Interleaving (λ s. s) (λ fd. left_alone) false served 1 served_once
unfolding round after_write after_read write_from_buffer read_to_buffer read_from notify call_all
    after_round
served-once = round_of stay (here {goes_on = true} refl)

one_at_a_time_example :
    (running_count served.threads ≤ 1) × (1 ≤ running_count served.threads → served.loop ≡ joining)
one_at_a_time_example = one_at_a_time (λ s. s) (λ fd. left_alone) 0 served init-served

born-IsIdle : IsIdle born
born-IsIdle = record {
  no_null = (refl, tt);
  connected = refl;
  blocking = refl;
  nothing_to_send = refl;
}

never_accepts_example :
    (served_once.loop ≡ joining) × (length served_once.threads ≡ length served.threads)
never_accepts_example =
    never_accepts (λ s. s) (λ fd. left_alone) 5 1 served served_once born [] [] refl refl
      born-IsIdle refl (omega arith) served-once

abbrev unconnected : Buffered
unconnected = empty (3 ∷ []) [] []

-- What connecting it leaves, where the second address answers.
abbrev first_peer :
    (made joined : Buffered) × ((construct
        (some (refused 6 ∷ Attempt.connected 7 ∷ []))
        true
        unconnected).0
      ≡ some made)
    × (connect (some (refused 6 ∷ Attempt.connected 7 ∷ [])) true unconnected
        ≡ some (returned true, joined))
    × (made.socket ≡ joined.socket)
    × (made.socket.sock ≡ some 7)
    × (made.calls ≡ [])
    × (joined.calls ≡ (none, connected) ∷ [])
unfolding connect_loop
first_peer = construct_silent (refused 6 ∷ Attempt.connected 7 ∷ []) 7 (3 ∷ []) [] [] refl

connect_again_example :
    connect_client
      (some (refused 6 ∷ Attempt.connected 7 ∷ []))
      true
      (record { socket = unconnected; has_thread = true })
    ≡ terminated
unfolding connect_client after_connect on_connect
connect_again_example =
    connect_again (some (refused 6 ∷ Attempt.connected 7 ∷ []))
      (some (refused 6 ∷ Attempt.connected 7 ∷ [])) true true
      (record { socket = unconnected; has_thread = false })
      (record { socket = first_peer.1; has_thread = true }) unconnected first_peer.1
      (ap (after_connect false) first_peer.3) first_peer.3
