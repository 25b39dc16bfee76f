-- ===== src/Uri/Components.antt =====
-- `uri::parse` against the text of a URI that is written from its components.
use libcoda_net.Base.{
  true, false, Option, none, some, [], ◌∷◌, ◌++◌, append-nil, map, ◌≡◌, ◌≢◌, refl, arith, ℕ, Bytes,
  Without, before_first, from_first, before_first-hit, from_first-hit, before_first-miss,
  from_first-miss, is_empty, to_lower,
}
use libcoda_net.Uri.Parse.{
  Uri, blank, after_prot_end, find_prot_end, parse_credentials, parse_host, parse_query, parse_path,
  parse_location, parse_rest, parse, uri,
}
use libcoda_net.Uri.Writing.{
  Components, marked, write_query, write_path, write_credentials, write_location, write,
  IsCredentials, IsPath, IsComponents, user_of, password_of, port_of, path_of, query_of,
  fragment_of, read,
}

after_prot_end-ne : (c : ℕ) (s : Bytes) → c ≢ b':' → after_prot_end (c ∷ s) ≡ none
after_prot_end-ne c [] h = refl
after_prot_end-ne c (a ∷ []) h = refl
after_prot_end-ne c (a ∷ b ∷ s) h = ground arith

pub find_prot_end-hit :
    (s rest : Bytes)
    → Without b':' s
    → find_prot_end (s ++ (b':' ∷ b'/' ∷ b'/' ∷ rest)) ≡ some (s, rest)
unfolding find_prot_end
find_prot_end-hit [] rest h = refl
find_prot_end-hit (c ∷ s) rest h =
    rw (after_prot_end-ne c (s ++ (b':' ∷ b'/' ∷ b'/' ∷ rest)) h.0, find_prot_end)
      (rw (find_prot_end-hit s rest h.1))

parse_host-marked :
    (u : Uri) (host : Bytes) (port : Option Bytes)
    → Without b':' host
    → parse_host u (host ++ marked b':' port)
      ≡ record u { port = port_of port; host = map to_lower host }
unfolding parse_host
parse_host-marked u host none h =
    rw (append-nil host, from_first-miss b':' host h, before_first-miss b':' host h)
parse_host-marked u host (some p) h =
    rw (from_first-hit b':' host p h, before_first-hit b':' host p h)

parse_query-marked :
    (u : Uri) (q : Bytes) (f : Option Bytes)
    → Without b'#' q
    → parse_query u (q ++ marked b'#' f) ≡ record u { query = q; fragment = marked b'#' f }
unfolding parse_query
parse_query-marked u q none h =
    rw (append-nil q, from_first-miss b'#' q h, before_first-miss b'#' q h)
parse_query-marked u q (some f) h = rw (from_first-hit b'#' q f h, before_first-hit b'#' q f h)

parse_path-write_path :
    (u : Uri) (p : Option (Bytes × Option Bytes × Option Bytes))
    → IsPath p
    → parse_path u (write_path p)
      ≡ record u { path = path_of p; query = query_of p; fragment = fragment_of p }
unfolding parse_path parse_query before_first from_first
parse_path-write_path u none h = refl
parse_path-write_path u (some (p, none, f)) h =
    rw (before_first-miss b'?' (p ++ marked b'#' f) h, from_first-miss b'?' (p ++ marked b'#' f) h)
parse_path-write_path u (some (p, some q, f)) h =
    rw
      (
        before_first-hit b'?' p (q ++ marked b'#' f) h.0,
        from_first-hit b'?' p (q ++ marked b'#' f) h.0,
      )
      (parse_query-marked (record u { path = p }) q f h.1)

authority-write_path :
    (a : Bytes) (p : Option (Bytes × Option Bytes × Option Bytes))
    → Without b'/' a
    → (before_first b'/' (a ++ write_path p) ≡ a)
      × (from_first b'/' (a ++ write_path p) ≡ write_path p)
authority-write_path a none h =
    rw (append-nil a) (before_first-miss b'/' a h, from_first-miss b'/' a h)
authority-write_path a (some (p, q, f)) h = (
  before_first-hit b'/' a (p ++ write_query q f) h,
  from_first-hit b'/' a (p ++ write_query q f) h,
)

parse_location-write_location :
    (u : Uri) (c : Components)
    → IsComponents c
    → parse_location u (write_location c) ≡ record u {
      port = port_of c.port;
      host = map to_lower c.host;
      path = path_of c.path;
      query = query_of c.path;
      fragment = fragment_of c.path;
    }
unfolding parse_location
parse_location-write_location u c h =
    let (own, others) = authority-write_path (c.host ++ marked b':' c.port) c.path h.authority in
    rw (own, others, parse_host-marked u c.host c.port h.host)
      (parse_path-write_path (record u { port = port_of c.port; host = map to_lower c.host }) c.path
        h.path)

pub parse_rest_at :
    (u : Uri) (s rest : Bytes)
    → Without b'@' s
    → parse_rest u (s ++ (b'@' ∷ rest)) ≡ parse_location (parse_credentials u s) rest
unfolding parse_rest
parse_rest_at u s rest h =
    rw (from_first-hit b'@' s rest h, parse_rest) (rw (before_first-hit b'@' s rest h))

parse_credentials-marked :
    (u : Uri) (user : Bytes) (password : Option Bytes)
    → Without b':' user
    → parse_credentials (record u { user = []; password = [] }) (user ++ marked b':' password)
      ≡ record u { user = user; password = marked b':' password }
unfolding parse_credentials
parse_credentials-marked u user none h = rw (append-nil user, from_first-miss b':' user h)
parse_credentials-marked u user (some p) h =
    rw (from_first-hit b':' user p h, before_first-hit b':' user p h)

parse_rest-write_credentials :
    (u : Uri) (credentials : Option (Bytes × Option Bytes)) (rest : Bytes)
    → IsCredentials credentials
    → Without b'@' rest
    → parse_rest (record u { user = []; password = [] }) (write_credentials credentials rest)
      ≡ parse_location
          (record u { user = user_of credentials; password = password_of credentials })
          rest
unfolding parse_rest
parse_rest-write_credentials u none rest h n = rw (from_first-miss b'@' rest n, parse_rest)
parse_rest-write_credentials u (some (user, none)) rest h n = rw (
  parse_rest_at _ (user ++ []) rest (rw append-nil h.1),
  parse_credentials-marked u user none h.0,
)
parse_rest-write_credentials u (some (user, some p)) rest h n =
    rw (parse_rest_at _ (user ++ (b':' ∷ p)) rest h.1, parse_credentials-marked u user (some p) h.0)

is_empty-append-cons : (s t : Bytes) (c : ℕ) → is_empty (s ++ (c ∷ t)) ≡ false
is_empty-append-cons [] t c = refl
is_empty-append-cons (x ∷ s) t c = refl

pub parse_scheme :
    (s rest default_scheme : Bytes)
    → Without b':' s
    → uri (s ++ (b':' ∷ b'/' ∷ b'/' ∷ rest)) default_scheme
      ≡ record (parse_rest
          (record (blank (s ++ (b':' ∷ b'/' ∷ b'/' ∷ rest))) { scheme = map to_lower s })
          rest) { is_valid = true }
unfolding uri parse
parse_scheme s rest default_scheme h =
    rw (is_empty-append-cons s (b'/' ∷ b'/' ∷ rest) b':', find_prot_end-hit s rest h)

-- A URI that is written from its components, a scheme and a host, and with or without credentials, a
-- port and a path, where only a path has a query or a fragment behind it, is parsed into them. What
-- the separators mark must not hold them: no colon in the scheme, the user and the host, no slash in
-- the host and port, no question mark in the path, nor in a fragment that is there without a query,
-- no number sign in the query, and no at sign but the one behind the credentials. The scheme and the
-- host come back in lower case and the password with its leading colon. A fragment comes back with
-- its leading number sign; without a query it comes back as the end of the path, and there is no
-- fragment.
pub uri-write :
    (c : Components) (default_scheme : Bytes)
    → IsComponents c
    → uri (write c) default_scheme ≡ read c
unfolding write
uri-write c default_scheme h =
    rw
      (parse_scheme c.scheme (write_credentials c.credentials (write_location c)) default_scheme
        h.scheme)
      (rw (
        parse_rest-write_credentials (record (blank (write c)) { scheme = map to_lower c.scheme })
            c.credentials (write_location c) h.credentials h.location,
        parse_location-write_location _ c h,
      ))
