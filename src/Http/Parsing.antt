-- ===== src/Http/Parsing.antt =====
-- The behaviour of `response::parse`: whole responses, a header with nothing behind its colon, a
-- status line without a reason, and every text.
use libcoda_net.Base.{
  ℕ, zero, suc, ◌<◌, List, [], ◌∷◌, ◌++◌, ◌≡◌, ◌≢◌, ◌∙◌, ap, arith, Bytes, Without, All, length,
  Option-cases, inl, inr, Dict,
}
use libcoda_net.Http.Scan.{
  Scanned, scanned_none, scanned_version, overrun, Code, scanned_code, scanned_all, sscanf,
}
use libcoda_net.Http.Response.{
  Response, find_crlf, skip_newline, parsed, out_of_range, out_of_fuel, parse_header, parse_headers,
  parse_body, parse_status, parse,
}
use libcoda_net.Http.Messages.{
  crlf, IsHeader, write_headers, assign_all, find_crlf-hit, find_crlf-split,
  parse_headers-write_headers, parse_headers-end, parse_headers_bare,
}

-- `parse` behind a status line that is read whole.
parse-status :
    (r : Response) (status rest v w : Bytes) (c : Code)
    → Without b'\r' status
    → sscanf status ≡ scanned_all v c w
    → parse r (status ++ crlf rest)
      ≡ parse_body
          (record r {
            transfer = record { content = []; headers = []; version = v };
            value = status ++ crlf rest;
            code = c;
          })
          status
          (crlf rest)
unfolding parse parse_status
parse-status r status rest v w c h e =
    rw (find_crlf-hit status rest h, parse) (rw (e, parse_status))

status-ne-nil :
    {v w : Bytes} {c : Code} (status : Bytes) → sscanf status ≡ scanned_all v c w → status ≢ []
unfolding sscanf
status-ne-nil [] e = cc
status-ne-nil (x ∷ status) e = λ n. cc

-- A response with a status line that is read whole, headers without a colon in their names, each
-- with a colon and a space, an empty line and a body is parsed into these: the version and the code
-- of the status line, the headers as they are assigned one after the other, and the body unchanged.
pub parse-write_headers :
    (r : Response) (status body v w : Bytes) (c : Code) (hs : List (Bytes × Bytes))
    → Without b'\r' status
    → sscanf status ≡ scanned_all v c w
    → All IsHeader hs
    → parse r (status ++ crlf (write_headers hs (crlf body)))
      ≡ parsed (record {
        transfer = record { content = body; headers = assign_all hs []; version = v };
        value = status ++ crlf (write_headers hs (crlf body));
        code = c;
      })
unfolding parse_body skip_newline
parse-write_headers r status body v w c hs h e hh =
    let text = write_headers hs (crlf body) in
    let (left, last, eq, ne, enough) =
      parse_headers-write_headers hs (suc (length (crlf text))) status (crlf body) [] hh
        (status-ne-nil status e) (omega arith) in
    parse-status r status text v w c h e
    ∙ rw (eq ∙ parse_headers-end left last body (assign_all hs []) ne enough, parse_body)

-- A header line that ends with its colon, behind any headers, makes `substr` throw: the response is
-- not parsed.
pub parse_bare_header :
    (r : Response) (status k rest v w : Bytes) (c : Code) (hs : List (Bytes × Bytes))
    → Without b'\r' status
    → sscanf status ≡ scanned_all v c w
    → All IsHeader hs
    → Without b':' k
    → Without b'\r' (k ++ (b':' ∷ []))
    → parse r (status ++ crlf (write_headers hs ((k ++ (b':' ∷ [])) ++ crlf rest))) ≡ out_of_range
unfolding parse_body skip_newline
parse_bare_header r status k rest v w c hs h e hh hk hr =
    let bare = (k ++ (b':' ∷ [])) ++ crlf rest in
    let text = write_headers hs bare in
    let (left, last, eq, ne, enough) =
      parse_headers-write_headers hs (suc (length (crlf text))) status bare [] hh
        (status-ne-nil status e) (omega arith) in
    parse-status r status text v w c h e
    ∙ rw (eq ∙ parse_headers_bare left last k rest (assign_all hs []) ne hk hr enough, parse_body)

-- A response whose status line has a code and no reason keeps the code, but is not taken apart: all
-- of the text is the content, and there are no headers.
pub parse_no_reason :
    (r : Response) (status rest v : Bytes) (c : Code)
    → Without b'\r' status
    → sscanf status ≡ scanned_code v c
    → parse r (status ++ crlf rest)
      ≡ parsed (record {
        transfer = record { content = status ++ crlf rest; headers = []; version = r.version };
        value = status ++ crlf rest;
        code = c;
      })
unfolding parse parse_status
parse_no_reason r status rest v c h e =
    rw (find_crlf-hit status rest h, parse) (rw (e, parse_status))

parse_headers-ends :
    (fuel : ℕ) (line s : Bytes) (m : Dict)
    → length s < fuel
    → parse_headers fuel line s m ≢ out_of_fuel
unfolding parse_headers skip_newline
parse_headers-ends fuel [] s m l = λ e. cc
parse_headers-ends zero (c ∷ line) s m l = absurd (omega arith)
parse_headers-ends (suc fuel) (c ∷ line) s m l = elim (Option-cases (find_crlf s)) [
  | inl e ↦ rw (e, parse_headers) (λ x. cc)
  | inr (q, e) ↦ elim (Option-cases (parse_header q.0 m)) [
    | inl f ↦ rw (e, parse_headers) (rw f (λ x. cc))
    | inr (m', f) ↦
        let (t, shape, shorter) = find_crlf-split s q.0 q.1 e in
        rw (e, parse_headers)
          (rw f (rw shape (parse_headers-ends fuel q.0 t m' (omega (arith, ap length shape)))))
  ]
]

parse_body-ends : (r : Response) (line t : Bytes) → parse_body r line (crlf t) ≢ out_of_fuel
unfolding parse_body skip_newline
parse_body-ends r line t =
    ground (arith, parse_headers-ends (suc (length (crlf t))) line t r.headers)

parse_status-ends :
    (r : Response) (line t : Bytes) (s : Scanned) → parse_status r line (crlf t) s ≢ out_of_fuel
unfolding parse_status
parse_status-ends r line t scanned_none = λ x. cc
parse_status-ends r line t (scanned_version v) = λ x. cc
parse_status-ends r line t (scanned_code v c) = λ x. cc
parse_status-ends r line t (scanned_all v c w) = parse_body-ends _ line t
parse_status-ends r line t overrun = λ x. cc

-- On every text the parser ends: it returns a response, or throws, or overruns an array, and the
-- fuel of its loop is enough.
pub parse-ends : (r : Response) (text : Bytes) → parse r text ≢ out_of_fuel
unfolding parse
parse-ends r text = elim (Option-cases (find_crlf text)) [
  | inl e ↦ rw (e, parse) (λ x. cc)
  | inr (q, e) ↦
      let (t, shape, _) = find_crlf-split text q.0 q.1 e in
      rw (e, parse) (rw shape (parse_status-ends _ q.0 t (sscanf q.0)))
]
