-- ===== src/Uri/Parse.antt =====
-- The `uri` class and `uri::parse`. An iterator into the string is the suffix that it points at,
-- and a range is a string.
use mathlib.Core.Option
use libcoda_net.Base.{
  ℕ, Bool, true, false, ◌&&◌, Option, none, some, [], ◌∷◌, ◌++◌, map, ◌==◌, if◌then◌else◌, Bytes,
  before_first, from_first, is_empty, to_lower,
}

pub record Uri : Type 0 where
  pub uri : Bytes
  pub is_valid : Bool
  pub scheme : Bytes
  pub user : Bytes
  pub password : Bytes
  pub host : Bytes
  pub port : Bytes
  pub path : Bytes
  pub query : Bytes
  pub fragment : Bytes

-- `uri::uri()`, with the string that the other constructor stores first.
abbrev pub blank : Bytes → Uri
blank s = record {
  uri = s;
  is_valid = false;
  scheme = [];
  user = [];
  password = [];
  host = [];
  port = [];
  path = [];
  query = [];
  fragment = [];
}

abbrev tail : Bytes → Bytes
tail [] = []
tail (c ∷ s) = s

-- Whether the string starts with "://", and what is behind it.
abbrev pub after_prot_end : Bytes → Option Bytes
after_prot_end (a ∷ b ∷ c ∷ s) = if a == b':' && b == b'/' && c == b'/' then some s else none
after_prot_end _ = none

-- `search` for "://": what is before it, and what is behind it.
unfoldable pub find_prot_end : Bytes → Option (Bytes × Bytes)
find_prot_end [] = none
find_prot_end (c ∷ s) = elim (after_prot_end (c ∷ s)) [
  | some rest ↦ some ([], rest)
  | none ↦ Option.map (λ (r : Bytes × Bytes). (c ∷ r.0, r.1)) (find_prot_end s)
]

-- `*it == mark ? it + 1 : it` up to the end of the range; at the end of the string `*it` is zero.
abbrev pub skip_mark : ℕ → Bytes → Bytes
skip_mark mark [] = []
skip_mark mark (c ∷ s) = if c == mark then s else c ∷ s

-- The part before an `@`. `pwd_i` stays on the colon.
unfoldable pub parse_credentials : Uri → Bytes → Uri
parse_credentials u s =
    if is_empty (from_first b':' s)
    then record u { user = s }
    else record u { password = from_first b':' s; user = before_first b':' s }

-- From `host_.reserve` on, and before it the port. The arguments are the ranges `[pos_i, path_i)`
-- and `[path_i, end)`.
unfoldable pub parse_host : Uri → Bytes → Uri
parse_host u authority = record u {
  port = skip_mark b':' (from_first b':' authority);
  host = map to_lower (before_first b':' authority);
}

-- The argument is what is behind the question mark. `frag_i` stays on the number sign.
unfoldable pub parse_query : Uri → Bytes → Uri
parse_query u s = record u { query = before_first b'#' s; fragment = from_first b'#' s }

unfoldable pub parse_path : Uri → Bytes → Uri
parse_path u s =
    parse_query (record u { path = skip_mark b'/' (before_first b'?' s) })
      (tail (from_first b'?' s))

unfoldable pub parse_location : Uri → Bytes → Uri
parse_location u s = parse_path (parse_host u (before_first b'/' s)) (from_first b'/' s)

-- From `find(pos_i, uri_s.end(), '@')` on.
unfoldable pub parse_rest : Uri → Bytes → Uri
parse_rest u s = elim (from_first b'@' s) [
  | [] ↦ parse_location u s
  | at ∷ rest ↦ parse_location (parse_credentials u (before_first b'@' s)) rest
]

-- `uri::parse`: its result, and the object.
unfoldable pub parse : Uri → Bytes → Bytes → Bool × Uri
parse u uri_s default_scheme = if is_empty uri_s then (false, u) else elim (find_prot_end uri_s) [
  | none ↦
      if is_empty default_scheme
      then (false, u)
      else (true, parse_rest (record u { scheme = default_scheme }) uri_s)
  | some (s, rest) ↦ (true, parse_rest (record u { scheme = map to_lower s }) rest)
]

-- The constructor.
unfoldable pub uri : Bytes → Bytes → Uri
uri s default_scheme = let r = parse (blank s) s default_scheme in record (r.1) { is_valid = r.0 }

unfoldable pub full_path : Uri → Bytes
full_path u =
    let temp = if is_empty u.query then u.path else u.path ++ (b'?' ∷ u.query) in
    if is_empty u.fragment then temp else temp ++ (b'#' ∷ u.fragment)

unfoldable pub host_with_port : Uri → Bytes
host_with_port u = if is_empty u.port then u.host else u.host ++ (b':' ∷ u.port)

-- A run of the parser unfolds this.
unfoldable pub run_uri : Bytes → Bytes → Uri
unfolding uri parse find_prot_end parse_rest parse_credentials parse_location parse_host parse_path
    parse_query before_first from_first
run_uri = uri
