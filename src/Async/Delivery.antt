-- ===== src/Async/Delivery.antt =====
-- What the loop of a client delivers, and how it ends.
use libcoda_net.Base.{
  ℕ, zero, suc, true, false, not, none, some, List, [], ◌∷◌, ◌++◌, map, append-nil, append_assoc,
  if◌then◌else◌, Bytes, length, ◌≡◌, ◌∙◌, refl, ap, sym,
}
use libcoda_net.Socket
use libcoda_net.Socket.{is_valid}
use libcoda_net.Buffered
use libcoda_net.Buffered.{
  Buffered, Hook, closed, Received, block, ended, failed, will_read, did_read, write_from_buffer,
  read_to_buffer, read_from, notify,
}
use libcoda_net.Buffered.Listeners.{NoNull, notify-NoNull, told}
use libcoda_net.Buffered.Transfer.{notified}
use libcoda_net.Buffered.Receive.{
  filter_all, read_to_buffer_blocking, read_to_buffer-valid, told_read,
}
use libcoda_net.Buffered.Channel.Sending.{write_from_buffer_empty}
use libcoda_net.Async.{run, round, after_write, after_read, next_round, close_client}

-- A connected client in blocking mode, with nothing to send and no null listener.
pub record IsIdle (b : Buffered) : Type 0 where
  pub no_null : NoNull b.listeners
  pub connected : is_valid b.socket ≡ true
  pub blocking : b.socket.non_blocking ≡ false
  pub nothing_to_send : b.out_buffer ≡ []

-- As many answers that the stream has ended.
abbrev pub ends : ℕ → List Received
ends zero = []
ends (suc n) = ended ∷ ends n

-- Closing where nothing is left to send.
close-silent :
    (b : Buffered)
    → NoNull b.listeners
    → is_valid b.socket ≡ true
    → b.out_buffer ≡ []
    → (b' : Buffered) × (Buffered.close b ≡ some b')
      × (is_valid b'.socket ≡ false)
      × (b'.in_buffer ≡ b.in_buffer)
      × (b'.incoming ≡ b.incoming)
unfolding Buffered.close Socket.close
close-silent b n v e =
    let told_closed = record b { calls = b.calls ++ ((none, closed) ∷ told closed b.listeners) } in
    (
      record told_closed {
        socket = (Socket.close b.socket b.fds).0;
        fds = (Socket.close b.socket b.fds).1;
      },
      rw (v, Buffered.close)
          (rw (notify-NoNull closed b n) (rw (write_from_buffer_empty told_closed v e) refl)),
      refl,
      refl,
      refl,
    )

module _ (filter : Bytes → Bytes) where
  pub round-IsIdle :
      (b : Buffered) → IsIdle b → round filter b ≡ after_read (read_to_buffer filter b)
  unfolding round after_write
  round-IsIdle b i =
      ap (λ v. if not v then some (false, b) else after_write filter (write_from_buffer b))
        i.connected
      ∙ ap (after_write filter) (write_from_buffer_empty b i.connected i.nothing_to_send)
      ∙ ap (λ v. if v then after_read (read_to_buffer filter b) else some (false, b)) i.connected

  run-IsIdle :
      (fuel : ℕ) (b : Buffered)
      → IsIdle b
      → run filter (suc fuel) b
        ≡ next_round (run filter fuel) (after_read (read_to_buffer filter b))
  unfolding run
  run-IsIdle fuel b i = ap (next_round (run filter fuel)) (round-IsIdle b i)

  -- The socket behind a block.
  abbrev after_block : Bytes → List Received → Buffered → Buffered
  after_block s rest b = record b {
    in_buffer = b.in_buffer ++ filter s;
    incoming = rest;
    calls = (b.calls ++ notified will_read b) ++ notified did_read b;
  }

  run-block :
      (fuel : ℕ) (s : Bytes) (rest : List Received) (b : Buffered)
      → IsIdle b
      → b.incoming ≡ block s ∷ rest
      → run filter (suc fuel) b ≡ run filter fuel (after_block s rest b)
  unfolding next_round after_read
  run-block fuel s rest b i e =
      run-IsIdle fuel b i
      ∙ ap (λ r. next_round (run filter fuel) (after_read r))
          (read_to_buffer_blocking filter s b rest i.no_null i.connected i.blocking e)

  read-failed :
      (rest : List Received) (b : Buffered)
      → IsIdle b
      → b.incoming ≡ failed ∷ rest
      → read_to_buffer filter b ≡ some (false, record (told_read filter b) { incoming = rest })
  unfolding read_from
  read-failed rest b i e =
      read_to_buffer-valid filter b i.no_null i.connected
      ∙ ap (λ l. read_from filter l (told_read filter b)) e

  pub read-ended :
      (rest : List Received) (b : Buffered)
      → IsIdle b
      → b.incoming ≡ ended ∷ rest
      → read_to_buffer filter b ≡ some (true, record (told_read filter b) { incoming = rest })
  unfolding read_from
  read-ended rest b i e =
      read_to_buffer-valid filter b i.no_null i.connected
      ∙ ap (λ l. read_from filter l (told_read filter b)) e

  run-failed :
      (fuel : ℕ) (rest : List Received) (b : Buffered)
      → IsIdle b
      → b.incoming ≡ failed ∷ rest
      → (b' : Buffered) × (run filter (suc fuel) b ≡ some (true, b'))
        × (is_valid b'.socket ≡ false)
        × (b'.in_buffer ≡ b.in_buffer)
        × (b'.incoming ≡ rest)
  unfolding next_round after_read close_client
  run-failed fuel rest b i e =
      let before = record (told_read filter b) { incoming = rest } in
      let (b', closes, gone, input, left) =
        close-silent before i.no_null i.connected i.nothing_to_send in
      (
        b',
        run-IsIdle fuel b i
            ∙ ap (λ r. next_round (run filter fuel) (after_read r)) (read-failed rest b i e)
            ∙ ap (λ r. next_round (run filter fuel) (close_client r)) closes,
        gone,
        input,
        left,
      )

  -- A connected client in blocking mode, with nothing to send and no null listener, whose peer sends
  -- blocks until the connection fails, comes to its end in one round for each block and one more: it
  -- has all blocks in its input, filtered and in order, and is closed.
  pub run_delivers :
      (ss : List Bytes) (rest : List Received) (b : Buffered)
      → IsIdle b
      → b.incoming ≡ map block ss ++ (failed ∷ rest)
      → (b' : Buffered) × (run filter (suc (length ss)) b ≡ some (true, b'))
        × (is_valid b'.socket ≡ false)
        × (b'.in_buffer ≡ b.in_buffer ++ filter_all filter ss)
        × (b'.incoming ≡ rest)
  run_delivers [] rest b i e =
      let (b', ran, gone, input, left) = run-failed 0 rest b i e in
      (b', ran, gone, input ∙ sym (append-nil b.in_buffer), left)
  run_delivers (s ∷ ss) rest b i e =
      let more = map block ss ++ (failed ∷ rest) in
      let next = after_block s more b in
      let (b', ran, gone, input, left) = run_delivers ss rest next (idle_again i) refl in
      (
        b',
        run-block (suc (length ss)) s more b i e ∙ ran,
        gone,
        input ∙ append_assoc b.in_buffer (filter s) (filter_all filter ss),
        left,
      )
    where
      idle_again : IsIdle b → IsIdle (after_block s (map block ss ++ (failed ∷ rest)) b)
      idle_again i = record {
        no_null = i.no_null;
        connected = i.connected;
        blocking = i.blocking;
        nothing_to_send = i.nothing_to_send;
      }

  -- Where the peer closed the connection, so that `recv` gives the end of the stream again and again,
  -- the loop does not end: after any number of rounds the client is still connected, and its input is
  -- what it was.
  pub run_spins :
      (n : ℕ) (rest : List Received) (b : Buffered)
      → IsIdle b
      → b.incoming ≡ ends n ++ rest
      → (b' : Buffered) × (run filter n b ≡ some (false, b'))
        × (is_valid b'.socket ≡ true)
        × (b'.in_buffer ≡ b.in_buffer)
  unfolding run next_round after_read
  run_spins zero rest b i e = (b, refl, i.connected, refl)
  run_spins (suc n) rest b i e =
      let next = record (told_read filter b) { incoming = ends n ++ rest } in
      let (b', ran, valid, input) = run_spins n rest next (still_idle i) refl in
      (
        b',
        run-IsIdle n b i
            ∙ ap (λ r. next_round (run filter n) (after_read r)) (read-ended (ends n ++ rest) b i e)
            ∙ ran,
        valid,
        input,
      )
    where
      still_idle : IsIdle b → IsIdle (record (told_read filter b) { incoming = ends n ++ rest })
      still_idle i = record {
        no_null = i.no_null;
        connected = i.connected;
        blocking = i.blocking;
        nothing_to_send = i.nothing_to_send;
      }
