-- ===== src/Uri/Writing.antt =====
-- A URI as its components and the text they are written as, for `uri::parse`.
use libcoda_net.Base.{true, Option, none, some, [], ◌∷◌, ◌++◌, map, ℕ, Bytes, Without, to_lower}
use libcoda_net.Uri.Parse.{Uri}

pub record Components : Type 0 where
  pub scheme : Bytes
  -- A user, with or without a password.
  pub credentials : Option (Bytes × Option Bytes)
  pub host : Bytes
  pub port : Option Bytes
  -- A path, with or without a query and a fragment.
  pub path : Option (Bytes × Option Bytes × Option Bytes)

abbrev pub marked : ℕ → Option Bytes → Bytes
marked mark none = []
marked mark (some s) = mark ∷ s

abbrev pub write_query : Option Bytes → Option Bytes → Bytes
write_query none f = marked b'#' f
write_query (some q) f = b'?' ∷ (q ++ marked b'#' f)

abbrev pub write_path : Option (Bytes × Option Bytes × Option Bytes) → Bytes
write_path none = []
write_path (some (p, q, f)) = b'/' ∷ (p ++ write_query q f)

abbrev pub write_credentials : Option (Bytes × Option Bytes) → Bytes → Bytes
write_credentials none rest = rest
write_credentials (some (user, password)) rest = (user ++ marked b':' password) ++ (b'@' ∷ rest)

abbrev pub write_location : Components → Bytes
write_location c = (c.host ++ marked b':' c.port) ++ write_path c.path

unfoldable pub write : Components → Bytes
write c = c.scheme ++ (b':' ∷ b'/' ∷ b'/' ∷ write_credentials c.credentials (write_location c))

abbrev pub IsCredentials : Option (Bytes × Option Bytes) → Type 0
IsCredentials none = Unit
IsCredentials (some (user, none)) = Without b':' user × Without b'@' user
IsCredentials (some (user, some password)) =
    Without b':' user × Without b'@' (user ++ (b':' ∷ password))

abbrev pub IsPath : Option (Bytes × Option Bytes × Option Bytes) → Type 0
IsPath none = Unit
IsPath (some (p, none, f)) = Without b'?' (p ++ marked b'#' f)
IsPath (some (p, some q, f)) = Without b'?' p × Without b'#' q

pub record IsComponents (c : Components) : Type 0 where
  pub scheme : Without b':' c.scheme
  pub credentials : IsCredentials c.credentials
  pub host : Without b':' c.host
  pub authority : Without b'/' (c.host ++ marked b':' c.port)
  pub path : IsPath c.path
  pub location : Without b'@' (write_location c)

abbrev pub user_of : Option (Bytes × Option Bytes) → Bytes
user_of none = []
user_of (some (user, password)) = user

-- The parser keeps the colon.
abbrev pub password_of : Option (Bytes × Option Bytes) → Bytes
password_of none = []
password_of (some (user, password)) = marked b':' password

abbrev pub port_of : Option Bytes → Bytes
port_of none = []
port_of (some p) = p

-- The parser looks for a fragment behind a question mark only, so that one without a query stays in
-- the path.
abbrev pub path_of : Option (Bytes × Option Bytes × Option Bytes) → Bytes
path_of none = []
path_of (some (p, none, f)) = p ++ marked b'#' f
path_of (some (p, some q, f)) = p

abbrev pub query_of : Option (Bytes × Option Bytes × Option Bytes) → Bytes
query_of none = []
query_of (some (p, none, f)) = []
query_of (some (p, some q, f)) = q

-- The parser keeps the number sign.
abbrev pub fragment_of : Option (Bytes × Option Bytes × Option Bytes) → Bytes
fragment_of none = []
fragment_of (some (p, none, f)) = []
fragment_of (some (p, some q, f)) = marked b'#' f

-- What the parser makes of `write c`.
abbrev pub read : Components → Uri
read c = record {
  uri = write c;
  is_valid = true;
  scheme = map to_lower c.scheme;
  user = user_of c.credentials;
  password = password_of c.credentials;
  host = map to_lower c.host;
  port = port_of c.port;
  path = path_of c.path;
  query = query_of c.path;
  fragment = fragment_of c.path;
}
