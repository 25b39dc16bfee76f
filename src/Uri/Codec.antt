-- ===== src/Uri/Codec.antt =====
-- `uri::encode`, `uri::decode` and `helper::from_hex`. A `char` is the byte that it holds, so its
-- arithmetic is modulo 256.
use Prim.Native.Nat.{bit_or}
use libcoda_net.Base.{
  ℕ, ◌+◌, ◌*◌, ◌/◌, ◌%◌, Bool, not, ◌&&◌, ◌||◌, [], ◌∷◌, ◌++◌, ltb, ◌==◌, if◌then◌else◌, Bytes,
  is_digit, is_alnum, to_lower,
}

abbrev pub is_unreserved : ℕ → Bool
is_unreserved c = is_alnum c || c == b'-' || c == b'_' || c == b'.' || c == b'~'

-- A digit of `hex` and `uppercase`.
abbrev pub hex_digit : ℕ → ℕ
hex_digit d = if ltb d 10 then d + 48 else d + 55

unfoldable pub encode_byte : ℕ → Bytes
encode_byte c =
    if is_unreserved c then c ∷ [] else b'%' ∷ hex_digit (c / 16) ∷ hex_digit (c % 16) ∷ []

unfoldable pub encode : Bytes → Bytes
unfolding encode_byte
encode [] = []
encode (c ∷ s) = encode_byte c ++ encode s

-- `ch - '0'` or `tolower(ch) - 'a' + 10`.
unfoldable pub from_hex : ℕ → ℕ
from_hex ch = if is_digit ch then (ch + 208) % 256 else (to_lower ch + 169) % 256

-- `from_hex(i[1]) << 4 | from_hex(i[2])`, stored in a `char`.
unfoldable pub decode_pair : ℕ → ℕ → ℕ
unfolding from_hex
decode_pair a b = bit_or (from_hex a * 16 % 256) (from_hex b)

abbrev pub decode_plain : ℕ → ℕ
decode_plain c = if c == b'+' then b' ' else c

-- Behind the last byte `i[1]` and `i[2]` read the terminating zero, so a percent sign there, or
-- before a zero byte, is dropped.
unfoldable pub decode : Bytes → Bytes
unfolding decode_pair
decode [] = []
decode (c ∷ []) = if c == b'%' then [] else decode_plain c ∷ []
decode (c ∷ a ∷ []) =
    let near = decode (a ∷ []) in if c == b'%' then near else decode_plain c ∷ near
decode (c ∷ a ∷ b ∷ s) =
    let near = decode (a ∷ b ∷ s) in
    let far = decode_pair a b ∷ decode s in
    if c == b'%'
    then (if not (a == 0) && not (b == 0) then far else near)
    else decode_plain c ∷ near
