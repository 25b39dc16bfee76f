-- ===== src/Uri/Shapes.antt =====
-- What callers get from a parsed URI: the request path, the host with its port, and URIs with an at
-- sign behind the host.
use libcoda_net.Base.{
  false, none, some, [], ◌∷◌, ◌++◌, append-nil, map, ◌≡◌, ◌≢◌, refl, arith, Bytes, Without,
  before_first, from_first-miss, to_lower, ◌⊎◌, ◌↔◌,
}
use libcoda_net.Uri.Parse.{
  uri, parse, parse_location, parse_credentials, parse_host, parse_path, parse_query, find_prot_end,
  full_path, host_with_port,
}
use libcoda_net.Uri.Components.{uri-write, parse_scheme, parse_rest_at}
use libcoda_net.Uri.Writing.{Components, IsComponents, write, marked}

-- The request path of a URI with a path, a query that is not empty and a fragment: it has no leading
-- slash, and the fragment stands behind two number signs.
pub full_path-uri-write :
    (c : Components) (default_scheme p q f : Bytes)
    → IsComponents c
    → c.path ≡ some (p, some q, some f)
    → q ≢ []
    → full_path (uri (write c) default_scheme) ≡ p ++ (b'?' ∷ q) ++ (b'#' ∷ b'#' ∷ f)
unfolding full_path
full_path-uri-write c default_scheme p [] f h e n = absurd (n refl)
full_path-uri-write c default_scheme p (x ∷ q) f h e n = rw (uri-write c default_scheme h, e) refl

-- The host with its port is the written one, with the host in lower case, unless an empty port was
-- written.
pub host_with_port-uri-write :
    (c : Components) (default_scheme : Bytes)
    → IsComponents c
    → c.port ≢ some []
    → host_with_port (uri (write c) default_scheme) ≡ map to_lower c.host ++ marked b':' c.port
unfolding host_with_port
host_with_port-uri-write c default_scheme h n =
    rw (uri-write c default_scheme h) (ground (arith, append-nil (map to_lower c.host)))

-- An at sign in the path, the query or the fragment, with no at sign and no colon between the scheme
-- and it, makes all that is before it the user, and what is behind it the host.
pub uri_at_sign :
    (s host path rest default_scheme : Bytes)
    → Without b':' s
    → Without b':' (host ++ (b'/' ∷ path))
    → Without b'@' (host ++ (b'/' ∷ path))
    → let u =
        uri
          (s ++ (b':' ∷ b'/' ∷ b'/' ∷ ((host ++ (b'/' ∷ path)) ++ (b'@' ∷ rest))))
          default_scheme in
      (u.user ≡ host ++ (b'/' ∷ path))
      × (u.host ≡ map to_lower (before_first b':' (before_first b'/' rest)))
unfolding parse_credentials parse_location parse_host parse_path parse_query
uri_at_sign s host path rest default_scheme hs hc ha =
    rw (parse_scheme s ((host ++ (b'/' ∷ path)) ++ (b'@' ∷ rest)) default_scheme hs) (
      rw (parse_rest_at _ (host ++ (b'/' ∷ path)) rest ha)
        (rw (from_first-miss b':' (host ++ (b'/' ∷ path)) hc) (refl, refl)))

-- A URI is refused exactly when it is empty, or has no "://" while there is no default scheme.
pub uri_invalid_iff :
    (s default_scheme : Bytes)
    → ((uri s default_scheme).is_valid ≡ false)
      ↔ ((s ≡ []) ⊎ ((find_prot_end s ≡ none) × (default_scheme ≡ [])))
unfolding uri parse
uri_invalid_iff [] default_scheme = ground arith
uri_invalid_iff (x ∷ s) [] = ground arith
uri_invalid_iff (x ∷ s) (d ∷ ds) = ground arith
