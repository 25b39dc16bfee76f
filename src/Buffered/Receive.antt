-- ===== src/Buffered/Receive.antt =====
-- `read_to_buffer` by the script of the coming `recv` calls, and `close`.
use libcoda_net.Base.{
  Bool, true, false, not, none, some, List, [], ◌∷◌, ◌++◌, append-nil, append_assoc, map, ◌≡◌, ◌∙◌,
  refl, ap, arith, if◌then◌else◌, Bytes,
}
use libcoda_net.Socket
use libcoda_net.Socket.{is_some, is_valid}
use libcoda_net.Buffered.{
  after_loop, Buffered, will_read, did_read, Call, Received, block, ended, not_now, failed,
  write_from_buffer, read_loop, read_from, read_to_buffer, close,
}
use libcoda_net.Buffered.Listeners.{NoNull, notify-NoNull}
use libcoda_net.Buffered.Transfer.{notified}

-- An answer that ends the loop.
abbrev pub IsStop : Received → Type 0
IsStop (block s) = ⊥
IsStop _ = Unit {0}

abbrev pub is_failed : Received → Bool
is_failed failed = true
is_failed _ = false

abbrev pub is_nil {ℓ} : {A : Type ℓ} → List A → Bool
is_nil [] = true
is_nil (x ∷ xs) = false

abbrev pub filter_all : (Bytes → Bytes) → List Bytes → Bytes
filter_all filter [] = []
filter_all filter (s ∷ ss) = filter s ++ filter_all filter ss

module _ (filter : Bytes → Bytes) where
  read_loop-blocks :
      (ss : List Bytes) (stop : Received) (input : Bytes) (rest : List Received)
      → IsStop stop
      → read_loop filter true input (map block ss ++ (stop ∷ rest))
        ≡ (input ++ filter_all filter ss, rest, is_failed stop)
  unfolding read_loop
  read_loop-blocks [] (block s) input rest h = absurd h
  read_loop-blocks [] ended input rest h = rw (append-nil input)
  read_loop-blocks [] not_now input rest h = rw (append-nil input)
  read_loop-blocks [] failed input rest h = rw (append-nil input)
  read_loop-blocks (s ∷ ss) stop input rest h =
      read_loop-blocks ss stop (input ++ filter s) rest h
      ∙ rw (append_assoc input (filter s) (filter_all filter ss))

  read_loop_again :
      (again : Bool) (ss : List Bytes) (stop : Received) (input : Bytes) (rest : List Received)
      → again ≡ true
      → IsStop stop
      → read_loop filter again input (map block ss ++ (stop ∷ rest))
        ≡ (input ++ filter_all filter ss, rest, is_failed stop)
  read_loop_again true ss stop input rest e h = read_loop-blocks ss stop input rest h
  read_loop_again false ss stop input rest e h = cc

  read_loop_once :
      (again : Bool) (s input : Bytes) (rest : List Received)
      → again ≡ false
      → read_loop filter again input (block s ∷ rest) ≡ (input ++ filter s, rest, false)
  unfolding read_loop
  read_loop_once true s input rest e = cc
  read_loop_once false s input rest e = refl

  after_loop-stop :
      (b : Buffered) (input : Bytes) (left : List Received) (stop : Received)
      → NoNull b.listeners
      → after_loop b (input, left, is_failed stop)
        ≡ some (
          not (is_failed stop),
          record b {
            in_buffer = input;
            incoming = left;
            calls = b.calls ++ (if is_failed stop then [] else notified did_read b);
          },
        )
  unfolding after_loop
  after_loop-stop b input left failed n = rw (append-nil b.calls)
  after_loop-stop b input left (block s) n =
      rw (notify-NoNull did_read (record b { in_buffer = input; incoming = left }) n)
  after_loop-stop b input left ended n =
      rw (notify-NoNull did_read (record b { in_buffer = input; incoming = left }) n)
  after_loop-stop b input left not_now n =
      rw (notify-NoNull did_read (record b { in_buffer = input; incoming = left }) n)

  abbrev hooks_of : List Bytes → Received → Buffered → List Call
  hooks_of ss stop b = if is_failed stop then [] else if is_nil ss then [] else notified did_read b

  read_from-blocks :
      (ss : List Bytes) (stop : Received) (b : Buffered) (rest : List Received)
      → IsStop stop
      → NoNull b.listeners
      → b.non_blocking ≡ true
      → read_from filter (map block ss ++ (stop ∷ rest)) b
        ≡ some (
          not (is_failed stop),
          record b {
            in_buffer = b.in_buffer ++ filter_all filter ss;
            incoming = rest;
            calls = b.calls ++ hooks_of ss stop b;
          },
        )
  unfolding read_from
  read_from-blocks [] (block s) b rest h n e = absurd h
  read_from-blocks [] ended b rest h n e = rw (append-nil b.in_buffer, append-nil b.calls)
  read_from-blocks [] not_now b rest h n e = rw (append-nil b.in_buffer, append-nil b.calls)
  read_from-blocks [] failed b rest h n e = rw (append-nil b.in_buffer, append-nil b.calls)
  read_from-blocks (s ∷ ss) stop b rest h n e =
      ap (after_loop b) (read_loop_again b.non_blocking (s ∷ ss) stop b.in_buffer rest e h)
      ∙ after_loop-stop b (b.in_buffer ++ filter_all filter (s ∷ ss)) rest stop n

  abbrev pub told_read : Buffered → Buffered
  told_read b = record b { calls = b.calls ++ notified will_read b }

  pub read_to_buffer-valid :
      (b : Buffered)
      → NoNull b.listeners
      → is_valid b.socket ≡ true
      → read_to_buffer filter b ≡ read_from filter b.incoming (told_read b)
  unfolding read_to_buffer
  read_to_buffer-valid b n v = rw (notify-NoNull will_read b n, read_to_buffer) (rw v)

  -- A read of a socket in non-blocking mode appends every block that is ready, filtered and in order,
  -- up to the answer that ends the loop, and uses up exactly these answers. It is false just for an
  -- error other than "not now"; the blocks before the error are kept, and only `on_will_read` was
  -- called. Else `on_did_read` is called if there was a block.
  pub read_to_buffer-blocks :
      (ss : List Bytes) (stop : Received) (b : Buffered) (rest : List Received)
      → IsStop stop
      → NoNull b.listeners
      → is_valid b.socket ≡ true
      → b.non_blocking ≡ true
      → b.incoming ≡ map block ss ++ (stop ∷ rest)
      → read_to_buffer filter b
        ≡ some (
          not (is_failed stop),
          record b {
            in_buffer = b.in_buffer ++ filter_all filter ss;
            incoming = rest;
            calls = (b.calls ++ notified will_read b) ++ hooks_of ss stop b;
          },
        )
  read_to_buffer-blocks ss stop b rest h n v e i =
      read_to_buffer-valid b n v
      ∙ ap (λ l. read_from filter l (told_read b)) i
      ∙ read_from-blocks ss stop (told_read b) rest h n e

  -- A read of a socket in blocking mode takes one block and leaves the later ones.
  pub read_to_buffer_blocking :
      (s : Bytes) (b : Buffered) (rest : List Received)
      → NoNull b.listeners
      → is_valid b.socket ≡ true
      → b.non_blocking ≡ false
      → b.incoming ≡ block s ∷ rest
      → read_to_buffer filter b
        ≡ some (
          true,
          record b {
            in_buffer = b.in_buffer ++ filter s;
            incoming = rest;
            calls = (b.calls ++ notified will_read b) ++ notified did_read b;
          },
        )
  unfolding read_from
  read_to_buffer_blocking s b rest n v e i =
      read_to_buffer-valid b n v
      ∙ ap (λ l. read_from filter l (told_read b)) i
      ∙ ap (after_loop (told_read b)) (read_loop_once b.non_blocking s b.in_buffer rest e)
      ∙ after_loop-stop (told_read b) (b.in_buffer ++ filter s) rest ended n

close-sock :
    (b b' : Buffered) → is_valid b.socket ≡ true → close b ≡ some b' → b'.socket.sock ≡ none
unfolding close Socket.close
close-sock b b' v h = ground arith

-- Closing a valid socket, where no null listener is called, leaves a socket that is not valid, on which closing again does nothing and writing fails.
pub close_lem :
    (b b' : Buffered)
    → is_valid b.socket ≡ true
    → close b ≡ some b'
    → (is_valid b'.socket ≡ false)
      × (close b' ≡ some b')
      × (write_from_buffer b' ≡ some (false, b'))
unfolding close write_from_buffer
close_lem b b' v h = let e = close-sock b b' v h in (rw e, ground arith, ground arith)
