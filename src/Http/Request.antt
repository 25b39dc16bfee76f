-- ===== src/Http/Request.antt =====
-- The text of a request, as `http::socket::request` puts it together. `snprintf` writes at most
-- MAX_URL_LEN - 1 characters into `buf`, and its strings end at a zero byte.
use libcoda_net.Base.{
  ℕ, zero, suc, ◌+◌, ◌/◌, ◌%◌, Bool, true, false, none, some, List, [], ◌∷◌, ◌++◌, map, ◌==◌,
  if◌then◌else◌, Bytes, ascii, is_empty, to_lower, before_first, length, lookup, has, same,
}
use libcoda_net.Uri.Parse.{full_path}
use libcoda_net.Buffered.{Buffered, write, writeln, take}
use libcoda_net.Buffered.Lines.{write_lines}
use libcoda_net.Http.{Method, method_name}
use libcoda_net.Http.Client.{Client}

abbrev pub c_str : Bytes → Bytes
c_str = before_first 0

unfoldable pub snprintf : Bytes → Bytes
snprintf s = take 1999 s

-- `%zu`.
unfoldable pub decimal_from : ℕ → ℕ → Bytes → Bytes
decimal_from zero n s = s
decimal_from (suc fuel) n s = elim (n / 10 == 0) [
  | true ↦ (n % 10 + b'0') ∷ s
  | false ↦ decimal_from fuel (n / 10) ((n % 10 + b'0') ∷ s)
]

unfoldable pub decimal : ℕ → Bytes
unfolding decimal_from
decimal n = decimal_from (suc n) n []

-- The path of the request line, by the path that the caller gave, or else the URI's.
unfoldable pub target_of : Bytes → Bytes
target_of [] = b'/' ∷ []
target_of (c ∷ s) = if c == b'/' then c ∷ s else b'/' ∷ c ∷ s

unfoldable pub request_line : Client → Method → Bytes → Bytes
request_line c method path =
    let target = target_of (if is_empty path then full_path c.uri else path) in
    snprintf (method_name method ++ (b' ' ∷ (c_str target ++ (ascii " HTTP/" ++ c_str c.version))))

-- A line unless the header is set.
abbrev pub unless_set : Client → Bytes → Bytes → List Bytes
unless_set c key line = if has key c.headers then [] else snprintf line ∷ []

abbrev pub header_text : Bytes × Bytes → Bytes
header_text (k, v) = snprintf (c_str k ++ (b':' ∷ b' ' ∷ c_str v))

unfoldable pub is_chunked : Client → Bool
is_chunked c = elim (lookup (ascii "Transfer-Encoding") c.headers) [
  | none ↦ false
  | some v ↦ same (map to_lower (c_str v)) (ascii "chunked")
]

abbrev pub size_line : Client → List Bytes
size_line c =
    if is_chunked c
    then []
    else if is_empty c.content
    then []
    else snprintf (ascii "Content-Size: " ++ decimal (length c.content)) ∷ []

-- The lines up to the empty one.
unfoldable pub request_lines : Client → Method → Bytes → List Bytes
request_lines c method path =
    request_line c method path
    ∷ (unless_set c (ascii "Host") (ascii "Host: " ++ c_str c.uri.host)
        ++ (unless_set c (ascii "Accept") (ascii "Accept: */*")
            ++ (unless_set c (ascii "Connection") (ascii "Connection: close")
                ++ (map header_text c.headers ++ size_line c))))

-- The writes into the output buffer.
unfoldable pub write_request : Client → Method → Bytes → Buffered → Buffered
write_request c method path b =
    let b₁ = writeln [] (write_lines (request_lines c method path) b) in
    if is_empty c.content then b₁ else write c.content b₁
