-- ===== src/Http/Messages.antt =====
-- `response::parse` against the text of a response, and on every text.
use libcoda_net.Base.{
  ℕ, zero, suc, ◌≤◌, ◌<◌, some, List, [], ◌∷◌, ◌++◌, ◌≡◌, ◌≢◌, ◌∙◌, refl, arith, Bool-cases, ◌&&◌,
  ◌==◌, Bytes, Without, All, length, length-append, from_first, before_first-hit, from_first-hit,
  Dict, assign, Option-cases, inl, inr,
}
use libcoda_net.Http.Response.{
  find_crlf, skip_newline, parsed, out_of_range, header_value, parse_header, parse_headers,
}

abbrev pub crlf : Bytes → Bytes
crlf rest = b'\r' ∷ b'\n' ∷ rest

abbrev pub header_line : Bytes × Bytes → Bytes
header_line (k, v) = k ++ (b':' ∷ b' ' ∷ v)

-- No colon in the name, and no carriage return in the line.
abbrev pub IsHeader : Bytes × Bytes → Type 0
IsHeader (k, v) = Without b':' k × Without b'\r' (header_line (k, v))

unfoldable pub write_headers : List (Bytes × Bytes) → Bytes → Bytes
write_headers [] rest = rest
write_headers (h ∷ hs) rest = header_line h ++ crlf (write_headers hs rest)

-- What the map holds after the headers, in the order of the text.
unfoldable pub assign_all : List (Bytes × Bytes) → Dict → Dict
assign_all [] m = m
assign_all ((k, v) ∷ hs) m = assign_all hs (assign k v m)

pub find_crlf-hit :
    (l rest : Bytes) → Without b'\r' l → find_crlf (l ++ crlf rest) ≡ some (l, crlf rest)
unfolding find_crlf
find_crlf-hit [] rest h = refl
find_crlf-hit (c ∷ []) rest h = ground arith
find_crlf-hit (c ∷ d ∷ l) rest h = ground (arith, find_crlf-hit (d ∷ l) rest h.1)

-- What `find` returns is a place of the text that holds the two bytes.
pub find_crlf-split :
    (s l r : Bytes) → find_crlf s ≡ some (l, r) → (t : Bytes) × (r ≡ crlf t) × (length r ≤ length s)
unfolding find_crlf
find_crlf-split [] l r h = cc
find_crlf-split (c ∷ []) l r h = cc
find_crlf-split (c ∷ d ∷ s) l r h = elim (Bool-cases (c == b'\r' && d == b'\n')) [
  | inl hit ↦ (s, ground arith, ground arith)
  | inr miss ↦ elim (Option-cases (find_crlf (d ∷ s))) [
    | inl e ↦ cc (rw (miss, find_crlf, e) at h)
    | inr (q, e) ↦
        let (t, shape, shorter) = find_crlf-split (d ∷ s) q.0 q.1 e in
        (t, ground (arith, shape, e), ground (arith, shorter, e))
  ]
]

parse_header-line :
    (k v : Bytes) (m : Dict)
    → Without b':' k
    → parse_header (header_line (k, v)) m ≡ some (assign k v m)
unfolding parse_header header_value
parse_header-line k v m h =
    rw (from_first-hit b':' k (b' ' ∷ v) h, before_first-hit b':' k (b' ' ∷ v) h)

header_line-ne-nil : (h : Bytes × Bytes) → header_line h ≢ []
header_line-ne-nil ([], v) = λ e. cc
header_line-ne-nil (c ∷ k, v) = λ e. cc

-- One round of the loop, on fuel.
parse_headers-line :
    (fuel : ℕ) (line next rest : Bytes) (m m' : Dict)
    → line ≢ []
    → Without b'\r' next
    → parse_header next m ≡ some m'
    → parse_headers (suc fuel) line (next ++ crlf rest) m ≡ parse_headers fuel next rest m'
unfolding parse_headers skip_newline
parse_headers-line fuel [] next rest m m' ne h e = absurd (ne refl)
parse_headers-line fuel (c ∷ line) next rest m m' ne h e =
    rw (find_crlf-hit next rest h, parse_headers) (rw (e, parse_headers))

-- The loop over whole header lines.
pub parse_headers-write_headers :
    (hs : List (Bytes × Bytes)) (fuel : ℕ) (line rest : Bytes) (m : Dict)
    → All IsHeader hs
    → line ≢ []
    → length (write_headers hs rest) < fuel
    → (left : ℕ) × (last : Bytes) × (parse_headers fuel line (write_headers hs rest) m
        ≡ parse_headers left last rest (assign_all hs m))
      × (last ≢ [])
      × (length rest < left)
unfolding write_headers assign_all
parse_headers-write_headers [] fuel line rest m h ne l = (fuel, line, refl, ne, l)
parse_headers-write_headers (x ∷ hs) zero line rest m h ne l = absurd (omega arith)
parse_headers-write_headers ((k, v) ∷ hs) (suc fuel) line rest m h ne l =
    let (left, last, e, ne', l') =
      parse_headers-write_headers hs fuel (header_line (k, v)) rest (assign k v m) h.1
        (header_line-ne-nil (k, v))
        (omega (arith, length-append {0} (header_line (k, v)) (crlf (write_headers hs rest)))) in
    (
      left,
      last,
      parse_headers-line fuel line (header_line (k, v)) (write_headers hs rest) m (assign k v m) ne
            h.0.1 (parse_header-line k v m h.0.0)
          ∙ e,
      ne',
      l',
    )

-- The empty line ends the headers.
pub parse_headers-end :
    (fuel : ℕ) (line body : Bytes) (m : Dict)
    → line ≢ []
    → length (crlf body) < fuel
    → parse_headers fuel line (crlf body) m ≡ parsed (m, body)
unfolding parse_headers parse_header from_first
parse_headers-end zero line body m ne l = absurd (omega arith)
parse_headers-end (suc fuel) line body m ne l = parse_headers-line fuel line [] body m m ne tt refl

-- A line that ends with its colon.
pub parse_headers_bare :
    (fuel : ℕ) (line k rest : Bytes) (m : Dict)
    → line ≢ []
    → Without b':' k
    → Without b'\r' (k ++ (b':' ∷ []))
    → length ((k ++ (b':' ∷ [])) ++ crlf rest) < fuel
    → parse_headers fuel line ((k ++ (b':' ∷ [])) ++ crlf rest) m ≡ out_of_range
unfolding parse_headers parse_header header_value
parse_headers_bare zero line k rest m ne c r l = absurd (omega arith)
parse_headers_bare (suc fuel) [] k rest m ne c r l = absurd (ne refl)
parse_headers_bare (suc fuel) (x ∷ line) k rest m ne c r l =
    rw (find_crlf-hit (k ++ (b':' ∷ [])) rest r, parse_headers)
      (rw (from_first-hit b':' k [] c, parse_headers))
