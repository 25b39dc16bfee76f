-- ===== src/Http/Answered.antt =====
-- A request of a client over a socket, from the connection to the response that is parsed.
use libcoda_net.Base.{
  ℕ, true, false, some, Option, List, [], ◌∷◌, ◌++◌, Bytes, length, All, Without, ◌≡◌, ap, refl,
}
use libcoda_net.Socket.{Attempt, connected}
use libcoda_net.Buffered.{Received, block}
use libcoda_net.Http.{Method}
use libcoda_net.Http.Scan.{Code, scanned_all, sscanf}
use libcoda_net.Http.Response.{Response, parse, parsed}
use libcoda_net.Http.Messages.{crlf, IsHeader, write_headers, assign_all}
use libcoda_net.Http.Parsing.{parse-write_headers}
use libcoda_net.Http.Client.{Client, is_secure, request, requested}
use libcoda_net.Http.Exchange.{System, answered, over_socket, port_of, request_text}
use libcoda_net.Http.OneBlock.{exchange_one_block}

request-parsed :
    (sys : System) (c : Client) (method : Method) (path : Bytes) (text : Bytes) (r : Response)
    → c.uri.is_valid ≡ true
    → over_socket sys c method path ≡ some (c, text)
    → parse c.response text ≡ parsed r
    → request (some (over_socket sys)) method path c ≡ requested (record c { response = r })
unfolding request
request-parsed sys c method path text r v e p = simp (v, request) (rw e (rw p refl))

-- A plain request of a client with a valid URI, whose first address connects, whose text the system
-- takes whole, and whose answer comes in one block that is a status line that is read whole, headers
-- without a colon in their names, an empty line and a body, gives the client the response of that
-- status line, these headers and that body; nothing else of the client changes.
pub request-over_socket :
    (sys : System) (c : Client) (method : Method) (path : Bytes) (port : Code) (fd : ℕ)
    (ps : List Attempt) (rest : List Received) (os : List (Option ℕ)) (status body v w : Bytes)
    (code : Code) (hs : List (Bytes × Bytes))
    → c.uri.is_valid ≡ true
    → is_secure c ≡ false
    → port_of c ≡ some port
    → sys.resolve c.uri.host port ≡ some (connected fd ∷ ps)
    → sys.incoming ≡ block (status ++ crlf (write_headers hs (crlf body))) ∷ rest
    → sys.outgoing ≡ some (length (request_text sys c method path)) ∷ os
    → Without b'\r' status
    → sscanf status ≡ scanned_all v code w
    → All IsHeader hs
    → request (some (over_socket sys)) method path c
      ≡ requested (record c {
        response = record {
          transfer = record { content = body; headers = assign_all hs []; version = v };
          value = status ++ crlf (write_headers hs (crlf body));
          code = code;
        };
      })
unfolding over_socket answered
request-over_socket sys c method path port fd ps rest os status body v w code hs valid plain p a i o
      cr scans h =
    let text = status ++ crlf (write_headers hs (crlf body)) in
    let (b, e, wire, left) =
      exchange_one_block sys c method path port fd ps text rest os plain p a i o in
    request-parsed sys c method path text _ valid (ap (answered c) e)
      (parse-write_headers c.response status body v w code hs cr scans h)
