-- ===== src/Http/Response.antt =====
-- `response::parse`. A position in the text is the suffix behind it.
use mathlib.Core.Option
use libcoda_net.Base.{
  ℕ, zero, suc, ◌&&◌, ◌||◌, Option, none, some, [], ◌∷◌, ◌==◌, if◌then◌else◌, Bytes, length,
  before_first, from_first, Dict, assign, is_empty,
}
use libcoda_net.Http.{Transfer, transfer}
use libcoda_net.Http.Scan.{
  Code, plus, Scanned, scanned_none, scanned_version, scanned_code, scanned_all, overrun, sscanf,
}

pub record Response : Type 0 where
  pub transfer : Transfer
  pub open transfer use *
  pub value : Bytes
  pub code : Code

abbrev pub response : Response
response = record { transfer = transfer; value = []; code = plus 0 }

-- `value_.find("\r\n")`: what is before it, and what is from it on.
unfoldable pub find_crlf : Bytes → Option (Bytes × Bytes)
find_crlf [] = none
find_crlf (c ∷ []) = none
find_crlf (c ∷ d ∷ s) =
    let later = Option.map (λ (r : Bytes × Bytes). (c ∷ r.0, r.1)) (find_crlf (d ∷ s)) in
    if c == b'\r' && d == b'\n' then some ([], c ∷ d ∷ s) else later

-- At most two newline characters; behind the end the text reads as a zero.
unfoldable pub skip_newline : Bytes → Bytes
skip_newline [] = []
skip_newline (c ∷ []) = if c == b'\r' || c == b'\n' then [] else c ∷ []
skip_newline (c ∷ d ∷ s) =
    if c == b'\r' || c == b'\n' then (if d == b'\r' || d == b'\n' then s else d ∷ s) else c ∷ d ∷ s

-- `out_of_range` is the exception of `substr`, `overflow` a write behind the end of an array.
pub data Parsed {ℓ} (A : Type ℓ) : Type ℓ where
  parsed : A → Parsed A
  out_of_range : Parsed A
  overflow : Parsed A
  out_of_fuel : Parsed A

-- The value of a header, from `line` at its colon: `substr(sep + 2)`.
unfoldable pub header_value : Bytes → Option Bytes
header_value [] = none
header_value (colon ∷ []) = none
header_value (colon ∷ space ∷ s) = some s

-- One header line. A line without a colon is passed over.
unfoldable pub parse_header : Bytes → Dict → Option Dict
unfolding header_value
parse_header line headers =
    if is_empty (from_first b':' line)
    then some headers
    else elim (header_value (from_first b':' line)) [
      | none ↦ none
      | some v ↦ some (assign (before_first b':' line) v headers)
    ]

-- The loop, from the line that was read last: the headers, and the text from `pos` on.
unfoldable pub parse_headers : ℕ → Bytes → Bytes → Dict → Parsed (Dict × Bytes)
parse_headers fuel [] s headers = parsed (headers, s)
parse_headers zero (c ∷ line) s headers = out_of_fuel
parse_headers (suc fuel) (c ∷ line) s headers = elim (find_crlf s) [
  | none ↦ parsed (headers, s)
  | some (next, rest) ↦ elim (parse_header next headers) [
    | none ↦ out_of_range
    | some headers' ↦ parse_headers fuel next (skip_newline rest) headers'
  ]
]

-- `parse()` behind a status line that was read.
unfoldable pub parse_body : Response → Bytes → Bytes → Parsed Response
parse_body r line rest =
    elim (parse_headers (suc (length rest)) line (skip_newline rest) r.headers) [
      | parsed (headers, s) ↦
          parsed
            (record r { transfer = record { content = s; headers = headers; version = r.version } })
      | out_of_range ↦ out_of_range
      | overflow ↦ overflow
      | out_of_fuel ↦ out_of_fuel
    ]

abbrev pub whole_content : Response → Response
whole_content r = record r {
  transfer = record { content = r.value; headers = r.headers; version = r.version };
}

-- `parse()`, by what `sscanf` makes of the first line.
unfoldable pub parse_status : Response → Bytes → Bytes → Scanned → Parsed Response
parse_status r line rest scanned_none = parsed (whole_content r)
parse_status r line rest (scanned_version v) = parsed (whole_content r)
parse_status r line rest (scanned_code v c) = parsed (whole_content (record r { code = c }))
parse_status r line rest overrun = overflow
parse_status r line rest (scanned_all v c w) =
    parse_body
      (record r {
        transfer = record { content = r.content; headers = r.headers; version = v };
        code = c;
      })
      line rest

-- `parse(value)`, with its `clear`, which leaves the version.
unfoldable pub parse : Response → Bytes → Parsed Response
parse r value =
    let r' = record r {
      transfer = record { content = []; headers = []; version = r.version };
      value = value;
      code = plus 0;
    } in
    elim (find_crlf value) [
      | none ↦ parsed (whole_content r')
      | some (line, rest) ↦ parse_status r' line rest (sscanf line)
    ]
