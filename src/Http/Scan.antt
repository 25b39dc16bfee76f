-- ===== src/Http/Scan.antt =====
-- `sscanf(line, "HTTP/%s %d %s", version, &code_, buf)`, for the status line of a response. White
-- space in the format and in front of a conversion skips any white space.
use libcoda_net.Base.{
  ℕ, ◌+◌, ◌*◌, ◌-◌, Bool, false, ◌&&◌, ◌||◌, Option, none, some, [], ◌∷◌, ◌==◌, leb, if◌then◌else◌,
  Bytes, is_digit, is_empty, before_first, length,
}
use libcoda_net.Http.{max_url_len}

-- An `int`: `minus n` is -n.
pub data Code : Type 0 where
  plus minus : ℕ → Code

abbrev pub is_space : ℕ → Bool
is_space c = c == b' ' || (leb 9 c && leb c 13)

unfoldable pub skip_space : Bytes → Bytes
skip_space [] = []
skip_space (c ∷ s) = if is_space c then skip_space s else c ∷ s

-- What `%s` takes, behind the white space, and what it leaves.
unfoldable pub word : Bytes → Bytes
word [] = []
word (c ∷ s) = if is_space c then [] else c ∷ word s

unfoldable pub after_word : Bytes → Bytes
after_word [] = []
after_word (c ∷ s) = if is_space c then c ∷ s else after_word s

unfoldable pub digits : ℕ → Bytes → ℕ
digits value [] = value
digits value (c ∷ s) = if is_digit c then digits (value * 10 + (c - b'0')) s else value

unfoldable pub after_digits : Bytes → Bytes
after_digits [] = []
after_digits (c ∷ s) = if is_digit c then after_digits s else c ∷ s

abbrev starts_digit : Bytes → Bool
starts_digit [] = false
starts_digit (c ∷ s) = is_digit c

unfoldable pub unsigned : Bytes → Option (ℕ × Bytes)
unfolding digits after_digits
unsigned s = if starts_digit s then some (digits 0 s, after_digits s) else none

-- What `%d` reads, behind the white space; `none` is a failure to match.
unfoldable pub number : Bytes → Option (Code × Bytes)
unfolding unsigned
number [] = none
number (c ∷ s) =
    if c == b'-'
    then elim (unsigned s) [ none ↦ none | some (n, rest) ↦ some (minus n, rest) ]
    else elim (unsigned (if c == b'+' then s else c ∷ s)) [
      | none ↦ none
      | some (n, rest) ↦ some (plus n, rest)
    ]

-- The conversions that were made. `overrun` is a word that does not fit in its array.
pub data Scanned : Type 0 where
  scanned_none : Scanned
  scanned_version : Bytes → Scanned
  scanned_code : Bytes → Code → Scanned
  scanned_all : Bytes → Code → Bytes → Scanned
  overrun : Scanned

abbrev pub fits : Bytes → Bool
fits s = leb (length s) max_url_len

-- From the second `%s` on.
scan_reason : Bytes → Code → Bytes → Scanned
scan_reason version code s =
    if is_empty (word s)
    then scanned_code version code
    else if fits (word s)
    then scanned_all version code (word s)
    else overrun

-- From `%d` on.
scan_code : Bytes → Bytes → Scanned
unfolding scan_reason number
scan_code version s = elim (number (skip_space s)) [
  | none ↦ scanned_version version
  | some (code, rest) ↦ scan_reason version code (skip_space rest)
]

-- From the first `%s` on.
scan_version : Bytes → Scanned
unfolding scan_code
scan_version s =
    if is_empty (word s)
    then scanned_none
    else if fits (word s)
    then scan_code (word s) (after_word s)
    else overrun

-- `line.c_str()` ends at a zero byte.
unfoldable pub sscanf : Bytes → Scanned
unfolding scan_version word after_word skip_space
sscanf (h ∷ t₁ ∷ t₂ ∷ p ∷ slash ∷ s) =
    if h == b'H' && t₁ == b'T' && t₂ == b'T' && p == b'P' && slash == b'/'
    then scan_version (skip_space (before_first 0 s))
    else scanned_none
sscanf _ = scanned_none
