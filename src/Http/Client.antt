-- ===== src/Http/Client.antt =====
-- `http::client`. The implementation of a request is an argument, as the source's `impl_` is a
-- variable: it may throw, and it may change the client that it is given.
use libcoda_net.Base.{
  ℕ, Bool, not, Option, none, some, [], ◌∷◌, ◌++◌, ◌≡◌, arith, if◌then◌else◌, Bytes, ascii, Dict,
  lookup, assign, has, insert_all, erase, lookup-assign, lookup-erase, same, same_iff,
}
use libcoda_net.Uri.Parse.{Uri}
use libcoda_net.Http.{Transfer, transfer, Method}
use libcoda_net.Http.Response.{Response, response, parse, parsed}

pub record Client : Type 0 where
  pub transfer : Transfer
  pub open transfer use *
  pub uri : Uri
  pub timeout : ℕ
  pub response : Response

abbrev pub with_headers : Client → Dict → Client
with_headers c headers = record c {
  transfer = record { content = c.content; headers = headers; version = c.version };
}

unfoldable pub add_header : Bytes → Bytes → Client → Client
add_header key value c = with_headers c (assign key value c.headers)

unfoldable pub add_headers : Dict → Client → Client
add_headers values c = with_headers c (insert_all values c.headers)

unfoldable pub remove_header : Bytes → Client → Client
remove_header key c = with_headers c (erase key c.headers)

unfoldable pub set_content : Bytes → Client → Client
set_content content c = record c {
  transfer = record { content = content; headers = c.headers; version = c.version };
}

-- `client(uri)`, with the user agent as its one header.
unfoldable pub client : Uri → Client
unfolding add_header
client u =
    add_header (ascii "User-Agent") (ascii "libcoda_net")
      (record { transfer = transfer; uri = u; timeout = 20; response = response })

unfoldable pub is_secure : Client → Bool
unfolding same
is_secure c = same c.uri.scheme (ascii "https")

-- `impl_(*this, method, path)`: `none` is an exception.
abbrev pub Implementation : Type 0
Implementation = Client → Method → Bytes → Option (Client × Bytes)

pub data Requested : Type 0 where
  requested : Client → Requested
  invalid_implementation invalid_uri failed bad_response : Requested

unfoldable pub request : Option Implementation → Method → Bytes → Client → Requested
request none method path c = invalid_implementation
request (some impl) method path c =
    if not c.uri.is_valid then invalid_uri else elim (impl c method path) [
      | none ↦ failed
      | some (c', content) ↦ elim (parse c'.response content) [
        | parsed r ↦ requested (record c' { response = r })
        | _ ↦ bad_response
      ]
    ]

-- `get`, `post`, `put` and `de1ete` with a path: it is put behind that of the URI.
unfoldable pub request_path : Option Implementation → Method → Bytes → Client → Requested
unfolding request
request_path impl method path c = request impl method (c.uri.path ++ (b'/' ∷ path)) c

pub insert_all-lookup :
    (j : Bytes) (kvs m : Dict)
    → lookup j (insert_all kvs m) ≡ (if has j m then lookup j m else lookup j kvs)
unfolding insert_all lookup
insert_all-lookup j [] m = ground arith
insert_all-lookup j ((k, v) ∷ kvs) m =
    rw (insert_all-lookup j kvs (if has k m then m else assign k v m))
      (ground (arith, lookup-assign k j v m, same_iff k j))

-- The headers of a client as a map: a header that is added replaces one of the same name and no
-- other, a header that is removed is gone and no other, and adding a set of headers adds those of
-- other names and replaces none.
pub headers-lookup :
    (c : Client) (k j v : Bytes) (values : Dict)
    → (lookup j (add_header k v c).headers ≡ (if same k j then some v else lookup j c.headers))
      × (lookup j (remove_header k c).headers ≡ (if same k j then none else lookup j c.headers))
      × (lookup j (add_headers values c).headers
          ≡ (if has j c.headers then lookup j c.headers else lookup j values))
unfolding add_header remove_header add_headers
headers-lookup c k j v values = (
  lookup-assign k j v c.headers,
  lookup-erase k j c.headers,
  insert_all-lookup j values c.headers,
)
