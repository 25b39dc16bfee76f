-- ===== src/Encoding.antt =====
-- encoders.cpp: the class `encoding::url`, for texts and for maps. A position is a number, and
-- `npos` is `none`.
pub mod Pairs
pub mod Archives
mod Tests
use libcoda_net.Base.{
  ℕ, zero, suc, ◌+◌, Option, none, some, [], ◌∷◌, ◌++◌, ◌==◌, if◌then◌else◌, Bytes, Dict, assign,
  length,
}
use libcoda_net.Uri.Codec.{encode, decode}
use libcoda_net.Buffered.{take}

-- The text of a map, before it is encoded.
unfoldable pub pairs_text : Dict → Bytes
pairs_text [] = []
pairs_text ((k, v) ∷ []) = k ++ (b'=' ∷ v)
pairs_text ((k, v) ∷ kv ∷ m) = (k ++ (b'=' ∷ v)) ++ (b'&' ∷ pairs_text (kv ∷ m))

unfoldable pub encode_map : Dict → Bytes
encode_map m = encode (pairs_text m)

unfoldable pub drop : ℕ → Bytes → Bytes
drop zero s = s
drop (suc n) [] = []
drop (suc n) (c ∷ s) = drop n s

-- The position of a byte in what stands at position `i`.
unfoldable pub find_at : ℕ → ℕ → Bytes → Option ℕ
find_at c i [] = none
find_at c i (d ∷ s) = if d == c then some i else find_at c (suc i) s

-- `from.find(c, pos)`.
unfoldable pub find_from : ℕ → ℕ → Bytes → Option ℕ
unfolding drop find_at
find_from c pos from = find_at c pos (drop pos from)

-- `from.substr(pos, n)`.
unfoldable pub substr : ℕ → ℕ → Bytes → Bytes
unfolding take
substr pos n from = take n (drop pos from)

-- The loop, on fuel, by the position of the next equals sign. `none` is the end of the fuel.
unfoldable pub decode_pairs : ℕ → Bytes → ℕ → Option ℕ → Dict → Option Dict
unfolding find_from substr
decode_pairs fuel from last_pos none to = some to
decode_pairs zero from last_pos (some pos) to = none
decode_pairs (suc fuel) from last_pos (some pos) to = elim (find_from b'&' pos from) [
  | none ↦ some (assign (substr last_pos pos from) (drop (suc pos) from) to)
  | some next ↦
      decode_pairs fuel from next (find_from b'=' next from)
        (assign (substr last_pos pos from) (substr (suc pos) next from) to)
]

unfoldable pub decode_map : Bytes → Dict → Option Dict
unfolding decode_pairs
decode_map from to = decode_pairs (length from) from 0 (find_from b'=' 0 from) to
