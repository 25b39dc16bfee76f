-- ===== src/Encoding/Pairs.antt =====
-- The maps of `encoding::url`.
use libcoda_net.Base.{
  ℕ, zero, suc, ◌+◌, ◌≤◌, Bool-cases, inl, inr, Option-cases, none, some, [], ◌∷◌, ◌++◌, ◌==◌,
  Bytes, Dict, assign, length, All, Without, ◌≡◌, refl, ap, ◌∙◌, length-append, arith, true, false,
}
use libcoda_net.Uri.Codec.{encode}
use libcoda_net.Uri.RoundTrip.{IsByte, is_url_char, encode-is_url_char}
use libcoda_net.Buffered.{take}
use libcoda_net.Encoding.{
  pairs_text, encode_map, drop, find_at, find_from, substr, decode_pairs, decode_map,
}

drop-next : (i : ℕ) (from s : Bytes) (d : ℕ) → drop i from ≡ d ∷ s → drop (suc i) from ≡ s
unfolding drop
drop-next zero [] s d h = cc
drop-next zero (c ∷ from) s d h = cc
drop-next (suc i) [] s d h = cc
drop-next (suc i) (c ∷ from) s d h = drop-next i from s d h

find_at-drop :
    (c i : ℕ) (s from : Bytes) (j : ℕ)
    → drop i from ≡ s
    → find_at c i s ≡ some j
    → (t : Bytes) × (drop j from ≡ c ∷ t) × (suc (length t) ≤ length s)
unfolding find_at
find_at-drop c i [] from j h f = cc
find_at-drop c i (d ∷ s) from j h f = elim (Bool-cases (d == c)) [
  | inl hit ↦
      let at : i ≡ j = cc (rw hit at f) in
      let mark : d ≡ c = ground arith in (s, rw⁻¹ at (h ∙ ap (λ x. x ∷ s) mark), (omega arith))
  | inr miss ↦
      let (t, e, l) = find_at-drop c (suc i) s from j (drop-next i from s d h) (rw miss at f) in
      (t, e, (let l' = l in omega arith))
]

find_at-miss : (c i : ℕ) (s : Bytes) → Without c s → find_at c i s ≡ none
unfolding find_at
find_at-miss c i [] h = refl
find_at-miss c i (d ∷ s) h = ground (arith, find_at-miss c (suc i) s h.1)

find_at-hit :
    (c i : ℕ) (k v : Bytes) → Without c k → find_at c i (k ++ (c ∷ v)) ≡ some (length k + i)
unfolding find_at
find_at-hit c i [] v h = ground arith
find_at-hit c i (d ∷ k) v h = (let ih = find_at-hit c (suc i) k v h.1 in ground arith)

drop-length : (k t : Bytes) → drop (length k) (k ++ t) ≡ t
unfolding drop
drop-length [] t = refl
drop-length (c ∷ k) t = drop-length k t

take-length : (k t : Bytes) → take (length k) (k ++ t) ≡ k
unfolding take
take-length [] t = refl
take-length (c ∷ k) t = ap (◌∷◌ c) (take-length k t)

url_char-Without : (s : Bytes) → All (λ c. is_url_char c ≡ true) s → Without b'=' s
url_char-Without [] h = tt
url_char-Without (c ∷ s) h = ((let g = h.0 in ground arith), url_char-Without s h.1)

-- A search from a position with another byte finds a later one.
find_from-drop :
    (c d i : ℕ) (from t : Bytes) (j : ℕ)
    → d == c ≡ false
    → drop i from ≡ d ∷ t
    → find_from c i from ≡ some j
    → (u : Bytes) × (drop j from ≡ c ∷ u) × (suc (length u) ≤ length t)
unfolding find_from find_at
find_from-drop c d i from t j ne h f =
    find_at-drop c (suc i) t from j (drop-next i from t d h) (rw ne at (rw h at f))

-- Each round starts at an equals sign, and the text behind it is shorter than the fuel.
decode_pairs-ends :
    (fuel : ℕ) (from : Bytes) (last_pos pos : ℕ) (to : Dict) (t : Bytes)
    → drop pos from ≡ b'=' ∷ t
    → suc (length t) ≤ fuel
    → (m : Dict) × (decode_pairs fuel from last_pos (some pos) to ≡ some m)
unfolding decode_pairs
decode_pairs-ends zero from last_pos pos to t e le = grind arith
decode_pairs-ends (suc fuel) from last_pos pos to t e le =
    elim (Option-cases (find_from b'&' pos from)) [
      | inl last ↦ rw (last, decode_pairs) (_, refl)
      | inr (next, found) ↦
          rw (found, decode_pairs)
            (elim (Option-cases (find_from b'=' next from)) [
              | inl none_left ↦ rw (none_left, decode_pairs) (_, refl)
              | inr (pos', found') ↦
                  let (u, eu, lu) = find_from-drop b'&' b'=' pos from t next refl e found in
                  let (w, ew, lw) = find_from-drop b'=' b'&' next from u pos' refl eu found' in
                  rw found' (decode_pairs-ends fuel from next pos' _ w ew (omega arith))
            ])
    ]

-- On every text the decoder of maps ends with a map: the length of the text is enough fuel.
pub decode_map-ends : (from : Bytes) (to : Dict) → (m : Dict) × (decode_map from to ≡ some m)
unfolding decode_map decode_pairs find_from drop
decode_map-ends from to = elim (Option-cases (find_from b'=' 0 from)) [
  | inl none_there ↦ rw none_there (to, refl)
  | inr (pos, found) ↦
      let (t, e, le) = find_at-drop b'=' 0 from from pos refl found in
      rw found (decode_pairs-ends (length from) from 0 pos to t e le)
]

-- A text with one equals sign or more and no ampersand behind the first is one pair: the key is what
-- stands before that sign, and the value all that stands behind it.
pub decode_map-pair :
    (k v : Bytes) (to : Dict)
    → Without b'=' k
    → Without b'&' v
    → decode_map (k ++ (b'=' ∷ v)) to ≡ some (assign k v to)
unfolding decode_map decode_pairs find_from substr drop
decode_map-pair k v to hk hv =
    let from = k ++ (b'=' ∷ v) in
    let size : length from ≡ suc (length k + length v) =
      omega (arith, length-append k (b'=' ∷ v)) in
    let mark : find_at b'=' 0 from ≡ some (length k) =
      find_at-hit b'=' 0 k v hk ∙ ap some (omega arith) in
    let value = drop-length k (b'=' ∷ v) in
    let last : find_at b'&' (length k) (drop (length k) from) ≡ none =
      rw value (find_at-miss b'&' (length k) (b'=' ∷ v) ((omega arith), hv)) in
    rw (mark, size)
      (rw (last, decode_pairs)
        (rw (take-length k (b'=' ∷ v), drop-next (length k) from v b'=' value) refl))

-- What the encoder makes of a map of bytes decodes to no entry at all: the marks between the keys and
-- values are percent coded with the rest.
pub decode_map-encode_map :
    (m to : Dict) → All IsByte (pairs_text m) → decode_map (encode_map m) to ≡ some to
unfolding decode_map decode_pairs find_from encode_map drop
decode_map-encode_map m to h =
    let plain = url_char-Without (encode (pairs_text m)) (encode-is_url_char (pairs_text m) h).0 in
    rw (find_at-miss b'=' 0 (encode (pairs_text m)) plain) refl
