-- ===== src/Uri/RoundTrip.antt =====
-- The percent coding on all byte strings.
use libcoda_net.Base.{
  ℕ, ◌*◌, ◌/◌, ◌%◌, ◌≤◌, ◌<◌, Bool, true, ◌||◌, [], ◌∷◌, ◌++◌, ◌≡◌, ◌≢◌, ◌∙◌, refl, ap, arith, ◌==◌,
  ==_iff, Bytes, All, All-append, length, length-append, passes, lt-passes, Bool-cases, inl, inr,
}
use libcoda_net.Uri.Codec.{
  is_unreserved, hex_digit, encode_byte, encode, decode_pair, decode_plain, decode,
}

abbrev pub IsByte : ℕ → Type 0
IsByte c = c < 256

-- What may stand in an encoded string.
abbrev pub is_url_char : ℕ → Bool
is_url_char c = is_unreserved c || c == b'%'

decode-plain : (c : ℕ) (s : Bytes) → c ≢ b'%' → decode (c ∷ s) ≡ decode_plain c ∷ decode s
unfolding decode
decode-plain c [] h = ground arith
decode-plain c (a ∷ []) h = ground arith
decode-plain c (a ∷ b ∷ s) h = ground arith

decode-percent :
    (a b : ℕ) (s : Bytes) → a ≢ 0 → b ≢ 0 → decode (b'%' ∷ a ∷ b ∷ s) ≡ decode_pair a b ∷ decode s
unfolding decode
decode-percent a b s ha hb = ground arith

pair_table : passes (λ c. decode_pair (hex_digit (c / 16)) (hex_digit (c % 16)) == c) 256 ≡ true
unfolding passes decode_pair
pair_table = refl

decode_pair-hex_digit :
    (c : ℕ) → IsByte c → decode_pair (hex_digit (c / 16)) (hex_digit (c % 16)) ≡ c
decode_pair-hex_digit c h = (==_iff _ c).0 (lt-passes _ 256 c h pair_table)

hex_digit-ne-zero : (d : ℕ) → hex_digit d ≢ 0
hex_digit-ne-zero d = ground arith

decode-encode_byte : (c : ℕ) (s : Bytes) → IsByte c → decode (encode_byte c ++ s) ≡ c ∷ decode s
unfolding encode_byte
decode-encode_byte c s h = elim (Bool-cases (is_unreserved c)) [
  | inl plain ↦ rw plain (decode-plain c s (ground arith) ∙ ground arith)
  | inr coded ↦ rw coded (
      decode-percent _ _ s (hex_digit-ne-zero (c / 16)) (hex_digit-ne-zero (c % 16))
      ∙ ap (λ x. x ∷ decode s) (decode_pair-hex_digit c h))
]

-- Decoding undoes encoding, for every string of bytes.
pub decode-encode : (s : Bytes) → All IsByte s → decode (encode s) ≡ s
unfolding encode decode
decode-encode [] h = refl
decode-encode (c ∷ s) h = decode-encode_byte c (encode s) h.0 ∙ ap (◌∷◌ c) (decode-encode s h.1)

hex_digit-is_url_char : (d : ℕ) → d < 16 → is_url_char (hex_digit d) ≡ true
hex_digit-is_url_char d h = ground arith

encode_byte-is_url_char : (c : ℕ) → IsByte c → All (λ x. is_url_char x ≡ true) (encode_byte c)
unfolding encode_byte
encode_byte-is_url_char c h = elim (Bool-cases (is_unreserved c)) [
  | inl plain ↦ rw plain (ground arith)
  | inr coded ↦ rw coded (
    refl,
    (
      hex_digit-is_url_char (c / 16) (omega arith),
      (hex_digit-is_url_char (c % 16) (omega arith), tt),
    ),
  )
]

length-encode_byte : (c : ℕ) → (1 ≤ length (encode_byte c)) × (length (encode_byte c) ≤ 3)
unfolding encode_byte
length-encode_byte c = elim (Bool-cases (is_unreserved c)) [
  | inl plain ↦ rw plain (omega arith)
  | inr coded ↦ rw coded (omega arith)
]

-- An encoded string holds unreserved characters and percent signs alone, and is between one and
-- three times as long.
pub encode-is_url_char :
    (s : Bytes)
    → All IsByte s
    → All (λ c. is_url_char c ≡ true) (encode s)
      × (length s ≤ length (encode s))
      × (length (encode s) ≤ 3 * length s)
unfolding encode
encode-is_url_char [] h = (tt, omega arith, omega arith)
encode-is_url_char (c ∷ s) h =
    let (chars, lower, upper) = encode-is_url_char s h.1 in
    let len = length-append (encode_byte c) (encode s) in
    let own = length-encode_byte c in
    (
      All-append _ (encode_byte c) (encode s) (encode_byte-is_url_char c h.0) chars,
      omega (arith, len, own),
      omega (arith, len, own),
    )
