-- ===== src/Buffered/Calls/Script.antt =====
-- The script of answers does what the calls of `recv` do.
use libcoda_net.Base.{
  Bool, true, false, Option, none, some, List, [], ◌∷◌, ◌++◌, map, if◌then◌else◌, Bytes, ◌≡◌, ◌∙◌,
  refl, ap, sym,
}
use libcoda_net.Socket
use libcoda_net.Socket.{Socket, is_valid, recv}
use libcoda_net.Buffered.{
  Buffered, Hook, Call, will_read, did_read, notify, call_all, Received, block, ended, not_now,
  failed, read_loop, read_from, after_loop, read_to_buffer, ◌>>=◌,
}
use libcoda_net.Buffered.Calls.{
  eintr, eagain, ewouldblock, other, Answer, bytes, end_of_stream, error, Chunk, chunk, no_chunk,
  thrown, is_transient, after_recv, read_chunk, chunk_loop, behind_loop, after_first, first_chunk,
  read_calls,
}

abbrev pub script : Answer → Received
script (bytes c s) = block (c ∷ s)
script end_of_stream = ended
script (error other) = failed
script (error eintr) = not_now
script (error eagain) = not_now
script (error ewouldblock) = not_now

abbrev scripted : Bytes × List Answer × Bool → Bytes × List Received × Bool
scripted (input, left, threw) = (input, map script left, threw)

-- The answers that are left, as the script of the object.
abbrev pub forget : Option (Bool × List Answer × Buffered) → Option (Bool × Buffered)
forget none = none
forget (some (r, left, b)) = some (r, record b { incoming = map script left })

notified-incoming :
    (h : Hook) (b : Buffered) (i : List Received)
    → notify h (record b { incoming = i })
      ≡ (notify h b >>= (λ b'. some (record b' { incoming = i })))
unfolding notify
notified-incoming h b i = each (call_all h b.listeners)
  where
    each :
        (o : Option (List Call))
        → elim o [
          | none ↦ none
          | some cs ↦ some (record b { incoming = i; calls = b.calls ++ ((none, h) ∷ cs) })
        ]
          ≡ (elim o [
            | none ↦ none
            | some cs ↦ some (record b { calls = b.calls ++ ((none, h) ∷ cs) })
          ]
              >>= (λ (b' : Buffered). some (record b' { incoming = i })))
    each none = refl
    each (some cs) = refl

if-scripted :
    (b : Bool) (x y : Bytes × List Answer × Bool) (x' y' : Bytes × List Received × Bool)
    → scripted x ≡ x'
    → scripted y ≡ y'
    → scripted (if b then x else y) ≡ (if b then x' else y')
if-scripted true x y x' y' h k = h
if-scripted false x y x' y' h k = k

forget_then :
    (left : List Answer) (n : Option Buffered)
    → forget (n >>= (λ b. some (true, left, b)))
      ≡ ((n >>= (λ b. some (record b { incoming = map script left }))) >>= (λ b. some (true, b)))
forget_then left none = refl
forget_then left (some b) = refl

if-forget :
    (b : Bool) (x y : Option (Bool × List Answer × Buffered)) (x' y' : Option (Bool × Buffered))
    → (b ≡ true → forget x ≡ x')
    → forget y ≡ y'
    → forget (if b then x else y) ≡ (if b then x' else y')
if-forget true x y x' y' h k = h refl
if-forget false x y x' y' h k = k

if-same {ℓ} : {A : Type ℓ} → (b : Bool) (x : A) → x ≡ (if b then x else x)
if-same true x = refl
if-same false x = refl

module _ (filter : Bytes → Bytes) where
  outcome : Answer → Chunk
  outcome (bytes c s) = chunk (filter (c ∷ s))
  outcome end_of_stream = no_chunk
  outcome (error other) = thrown
  outcome (error eintr) = no_chunk
  outcome (error eagain) = no_chunk
  outcome (error ewouldblock) = no_chunk

  read_chunk-valid :
      (a : Answer) (s : Socket) → is_valid s ≡ true → read_chunk filter a s ≡ outcome a
  unfolding read_chunk after_recv is_transient recv Socket.received outcome
  read_chunk-valid (bytes c b) s v = rw v refl
  read_chunk-valid end_of_stream s v = rw v refl
  read_chunk-valid (error other) s v = rw v refl
  read_chunk-valid (error eintr) s v = rw v refl
  read_chunk-valid (error eagain) s v = rw v refl
  read_chunk-valid (error ewouldblock) s v = rw v refl

  -- The loop goes on with one more answer.
  round-script :
      (a : Answer) (answers : List Answer) (s : Socket) (input : Bytes)
      → ((x : Bytes)
          → scripted (chunk_loop filter s answers (chunk (filter x)) input)
            ≡ read_loop filter s.non_blocking input (block x ∷ map script answers))
      → scripted (chunk_loop filter s answers (outcome a) input)
        ≡ read_loop filter s.non_blocking input (script a ∷ map script answers)
  unfolding chunk_loop read_loop outcome
  round-script (bytes c b) answers s input again = again (c ∷ b)
  round-script end_of_stream answers s input again = refl
  round-script (error other) answers s input again = refl
  round-script (error eintr) answers s input again = refl
  round-script (error eagain) answers s input again = refl
  round-script (error ewouldblock) answers s input again = refl

  chunk_loop-script :
      (answers : List Answer) (s : Socket) (x input : Bytes)
      → is_valid s ≡ true
      → scripted (chunk_loop filter s answers (chunk (filter x)) input)
        ≡ read_loop filter s.non_blocking input (block x ∷ map script answers)
  unfolding chunk_loop read_loop
  chunk_loop-script [] s x input v = if-same s.non_blocking (input ++ filter x, [], false)
  chunk_loop-script (a ∷ answers) s x input v =
      if-scripted s.non_blocking
        (chunk_loop filter s answers (read_chunk filter a s) (input ++ filter x))
        (input ++ filter x, a ∷ answers, false)
        (read_loop filter s.non_blocking (input ++ filter x) (script a ∷ map script answers))
        (input ++ filter x, script a ∷ map script answers, false)
        (ap (λ o. scripted (chunk_loop filter s answers o (input ++ filter x)))
            (read_chunk-valid a s v)
          ∙ round-script a answers s (input ++ filter x)
              (λ y. chunk_loop-script answers s y (input ++ filter x) v))
        refl

  behind_loop-script :
      (b : Buffered) (i : List Received) (r : Bytes × List Answer × Bool)
      → forget (behind_loop filter b r) ≡ after_loop (record b { incoming = i }) (scripted r)
  unfolding behind_loop after_loop
  behind_loop-script b i (input, left, true) = refl
  behind_loop-script b i (input, left, false) =
      let b' = record b { in_buffer = input } in
      forget_then left (notify did_read b')
      ∙ ap (λ n. n >>= (λ b''. some (true, b'')))
          (sym (notified-incoming did_read b' (map script left)))

  first_chunk-script :
      (a : Answer) (answers : List Answer) (b : Buffered)
      → is_valid b.socket ≡ true
      → forget (after_first filter b answers (outcome a))
        ≡ read_from filter
            (script a ∷ map script answers)
            (record b { incoming = script a ∷ map script answers })
  unfolding after_first read_from outcome
  first_chunk-script (bytes c s) answers b v =
      let i = block (c ∷ s) ∷ map script answers in
      behind_loop-script b i
        (chunk_loop filter b.socket answers (chunk (filter (c ∷ s))) b.in_buffer)
      ∙ ap (after_loop (record b { incoming = i }))
          (chunk_loop-script answers b.socket (c ∷ s) b.in_buffer v)
  first_chunk-script end_of_stream answers b v = refl
  first_chunk-script (error other) answers b v = refl
  first_chunk-script (error eintr) answers b v = refl
  first_chunk-script (error eagain) answers b v = refl
  first_chunk-script (error ewouldblock) answers b v = refl

  first_chunk-read_from :
      (answers : List Answer) (b : Buffered)
      → let b' = record b { incoming = map script answers } in
        forget (first_chunk filter answers b)
        ≡ (if is_valid b.socket then read_from filter (map script answers) b' else some (true, b'))
  unfolding first_chunk read_from
  first_chunk-read_from [] b = if-same (is_valid b.socket) (some (true, record b { incoming = [] }))
  first_chunk-read_from (a ∷ answers) b =
      let b' = record b { incoming = script a ∷ map script answers } in
      if-forget (is_valid b.socket) (after_first filter b answers (read_chunk filter a b.socket))
        (some (true, a ∷ answers, b)) (read_from filter (script a ∷ map script answers) b')
        (some (true, b'))
        (λ v.
          ap (λ o. forget (after_first filter b answers o)) (read_chunk-valid a b.socket v)
          ∙ first_chunk-script a answers b v)
        refl

  after_notify :
      (answers : List Answer) (n : Option Buffered)
      → forget (n >>= first_chunk filter answers) ≡ (
          (n >>= (λ b. some (record b { incoming = map script answers })))
          >>= (λ b. if is_valid b.socket then read_from filter b.incoming b else some (true, b)))
  after_notify answers none = refl
  after_notify answers (some b) = first_chunk-read_from answers b

  -- `read_to_buffer`, by the calls of `recv` that it makes and the status and the error number of
  -- each, does what it does by the script of their answers, for every object and whatever the answers
  -- are: the same result, input and calls of listeners, and the same answers are left.
  pub read_calls-script :
      (answers : List Answer) (b : Buffered)
      → forget (read_calls filter answers b)
        ≡ read_to_buffer filter (record b { incoming = map script answers })
  unfolding read_calls read_to_buffer
  read_calls-script answers b =
      after_notify answers (notify will_read b)
      ∙ ap
          (λ n. n >>= (λ b'.
            if is_valid b'.socket then read_from filter b'.incoming b' else some (true, b')))
          (sym (notified-incoming will_read b (map script answers)))
