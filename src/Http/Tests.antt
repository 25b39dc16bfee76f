-- ===== src/Http/Tests.antt =====
-- The theorems of the HTTP client at concrete messages.
use libcoda_net.Base.{
  List, arith, Bytes, same_iff, lookup, same, from_first, true, false, some, List, [], ◌∷◌, ◌++◌,
  ◌≡◌, ◌≢◌, refl, sym, ap, Bytes, ascii, All, length, lookup, same, arith, before_first,
}
use libcoda_net.Socket.{connected}
use libcoda_net.Buffered.{block, ended, write, writeln, take}
use libcoda_net.Buffered.Lines.{write_lines}
use libcoda_net.Uri.Parse.{Uri}
use libcoda_net.Http.{get, get, post}
use libcoda_net.Http.Scan.{plus, scanned_all, scanned_code, sscanf}
use libcoda_net.Http.Response.{Response, response, parse, parsed, out_of_range, out_of_fuel}
use libcoda_net.Http.Messages.{crlf, IsHeader, write_headers, assign_all}
use libcoda_net.Http.Parsing.{parse-write_headers, parse-ends}
use libcoda_net.Http.Client.{Client, is_secure}
use libcoda_net.Http.Client.{request, requested}
use libcoda_net.Http.Curl.{Curl, whole, over_curl, append_chunks}
use libcoda_net.Http.Chunks.{request-concat}
use libcoda_net.Http.Response
use libcoda_net.Http.Request.{
  request_lines, request_lines, request_line, write_request, snprintf, decimal, decimal_from,
  target_of, is_chunked,
}
use libcoda_net.Http.Exchange.{over_socket, System, request_text, port_of}
use libcoda_net.Http.Answered.{request-over_socket}
use libcoda_net.Http.Headers.{
  Change, adds, change_all, spec, spec_all, headers_of, change_all-abstract,
}
use libcoda_net.Http.Order.{parse-Perm}
use mathlib.Core.List.Permᴰ

abbrev status : Bytes
status = ascii "HTTP/1.1 404 Not Found"

status_scan : sscanf status ≡ scanned_all (ascii "1.1") (plus 404) (ascii "Not")
unfolding sscanf before_first
status_scan = refl

abbrev fields : List (Bytes × Bytes)
fields = (ascii "Server", ascii "x") ∷ (ascii "Age", ascii "1:2") ∷ []

fields-IsHeader : All IsHeader fields
fields-IsHeader = omega arith

status-IsLine : All (λ c. c ≢ b'\r') status
status-IsLine = omega arith

parse-write_headers_example :
    parse response (status ++ crlf (write_headers fields (crlf (ascii "body"))))
    ≡ parsed (record {
      transfer = record {
        content = ascii "body";
        headers = assign_all fields [];
        version = ascii "1.1";
      };
      value = status ++ crlf (write_headers fields (crlf (ascii "body")));
      code = plus 404;
    })
parse-write_headers_example =
    parse-write_headers response status (ascii "body") (ascii "1.1") (ascii "Not") (plus 404) fields
      status-IsLine status_scan fields-IsHeader

bare_scan : sscanf (ascii "HTTP/1.1 204 ") ≡ scanned_code (ascii "1.1") (plus 204)
unfolding sscanf before_first
bare_scan = refl

parse-ends_example : parse response (ascii "HTTP/1.1 200 OK\r\nA: b\r\n\r\nc") ≢ out_of_fuel
parse-ends_example = parse-ends response (ascii "HTTP/1.1 200 OK\r\nA: b\r\n\r\nc")

abbrev site : Uri
site = record {
  uri = ascii "http://h.org";
  is_valid = true;
  scheme = ascii "http";
  user = [];
  password = [];
  host = ascii "h.org";
  port = [];
  path = [];
  query = [];
  fragment = [];
}

abbrev user : Client
user = record {
  transfer = record {
    content = ascii "hi";
    headers = (ascii "Accept", ascii "a/b") ∷ [];
    version = ascii "1.1";
  };
  uri = site;
  timeout = 20;
  response = response;
}

abbrev network : System
network = record {
  openssl = false;
  resolve = λ host port. some (connected 3 ∷ []);
  attach_ok = true;
  incoming = block (ascii "HTTP/1.1 200 OK\r\n") ∷ block (ascii "\r\nbody") ∷ ended ∷ [];
  outgoing = some 84 ∷ [];
}

text_run :
    request_text network user post (ascii "p")
    ≡ ascii
        "POST /p HTTP/1.1\r\nHost: h.org\r\nConnection: close\r\nAccept: a/b\r\nContent-Size: 2\r\n\r\nhi"
unfolding write_request write_lines writeln write request_lines request_line snprintf take target_of
    lookup same is_chunked decimal decimal_from before_first
text_run = refl

-- A libcurl that accepts every setting and delivers an answer in two chunks.
abbrev chunked : Curl
chunked = record {
  has_handle = true;
  sets = λ made s. true;
  perform = λ made. whole (ascii "HTTP/1.1 200 OK\r\n\r" ∷ ascii "\nbody" ∷ []);
}

abbrev page : Response
page = record {
  transfer = record { content = ascii "body"; headers = []; version = ascii "1.1" };
  value = ascii "HTTP/1.1 200 OK\r\n\r\nbody";
  code = plus 200;
}

request-concat_example :
    request (some (over_curl chunked)) get [] user ≡ requested (record user { response = page })
unfolding Response.parse Response.parse_status Response.parse_body Response.parse_headers
    Response.find_crlf Response.skip_newline Response.parse_header sscanf before_first from_first
request-concat_example =
    request-concat chunked user get [] (ascii "HTTP/1.1 200 OK\r\n\r" ∷ ascii "\nbody" ∷ []) page
      refl refl (λ made s. refl) refl (ground arith) refl

-- What stands behind a zero byte of a chunk is lost.
zero_byte : append_chunks [] ((1 ∷ 0 ∷ 2 ∷ []) ∷ (3 ∷ []) ∷ []) ≡ 1 ∷ 3 ∷ []
unfolding append_chunks before_first
zero_byte = refl

abbrev refused_page : Bytes
refused_page = status ++ crlf (write_headers fields (crlf (ascii "body")))

abbrev one_answer : System
one_answer = record network { incoming = block refused_page ∷ [] }

request-over_socket_example :
    request (some (over_socket one_answer)) post (ascii "p") user
    ≡ requested (record user {
      response = record {
        transfer = record {
          content = ascii "body";
          headers = assign_all fields [];
          version = ascii "1.1";
        };
        value = refused_page;
        code = plus 404;
      };
    })
unfolding is_secure port_of same write_request write_lines request_lines lookup is_chunked write
request-over_socket_example =
    request-over_socket one_answer user post (ascii "p") (plus 80) 3 [] [] [] status (ascii "body")
      (ascii "1.1") (ascii "Not") (plus 404) fields refl refl refl refl refl
      (sym (ap (λ (t : Bytes). some (length t) ∷ []) text_run)) status-IsLine status_scan
      fields-IsHeader

abbrev fields_reversed : List (Bytes × Bytes)
fields_reversed = (ascii "Age", ascii "1:2") ∷ (ascii "Server", ascii "x") ∷ []

parse-Perm_example :
    (a b : Response) × (parse response (status ++ crlf (write_headers fields (crlf (ascii "body"))))
      ≡ parsed a)
    × (parse response (status ++ crlf (write_headers fields_reversed (crlf (ascii "body"))))
        ≡ parsed b)
    × (a.transfer ≡ b.transfer)
    × (a.code ≡ b.code)
unfolding same
parse-Perm_example =
    parse-Perm response status (ascii "body") (ascii "1.1") (ascii "Not") (plus 404) fields
      fields_reversed status-IsLine status_scan fields-IsHeader (omega arith)
      ∣ Permᴰ.swap refl refl ∣₁ ((refl, tt), (tt, tt))

abbrev in_order : List Change
in_order = adds (ascii "A") (ascii "1") ∷ adds (ascii "B") (ascii "2") ∷ []

abbrev other_order : List Change
other_order = adds (ascii "B") (ascii "2") ∷ adds (ascii "A") (ascii "1") ∷ []

orders-spec :
    (j : Bytes) → spec_all in_order (headers_of user) j ≡ spec_all other_order (headers_of user) j
unfolding spec_all spec
orders-spec j = ground (arith, same_iff (ascii "A") j, same_iff (ascii "B") j)

change_all-abstract_example :
    ((j : Bytes) → headers_of (change_all in_order user) j ≡ spec_all in_order (headers_of user) j)
    × (change_all in_order user ≡ change_all other_order user)
    × (request_lines (change_all in_order user) get []
        ≡ request_lines (change_all other_order user) get [])
change_all-abstract_example =
    change_all-abstract in_order other_order user get [] (tt, tt) orders-spec
