-- ===== src/Http/Objects.antt =====
-- Reading a header, setting the members of a client, and assigning clients. `transfer::header` reads
-- by `operator[]`, which adds a name that is missing.
use libcoda_net.Base.{
  ℕ, none, some, List, [], ◌∷◌, ◌++◌, map, append_assoc, ◌≡◌, ◌∙◌, refl, sym, ap, if◌then◌else◌,
  Bytes, Dict, lookup, assign, lookup-assign, same, ascii,
}
use libcoda_net.Base.Maps.Order.{assign-split}
use libcoda_net.Http.{Method}
use libcoda_net.Http.Client.{Client}
use libcoda_net.Http.Request.{
  request_lines, request_line, unless_set, size_line, c_str, header_text,
}

-- `header`: the value, and the client.
unfoldable pub header : Bytes → Client → Bytes × Client
header key c = elim (lookup key c.headers) [
  | some v ↦ (v, c)
  | none ↦ (
    [],
    record c {
      transfer = record {
        content = c.content;
        headers = assign key [] c.headers;
        version = c.version;
      };
    },
  )
]

abbrev pub set_version : Bytes → Client → Client
set_version value c = record c {
  transfer = record { content = c.content; headers = c.headers; version = value };
}

abbrev pub set_timeout : ℕ → Client → Client
set_timeout value c = record c { timeout = value }

-- `operator=(const client &)`, which leaves the response of the target.
unfoldable pub copy_assign : Client → Client → Client
copy_assign c other = record other { response = c.response }

-- `operator=(client &&)`: the target.
unfoldable pub move_assign : Client → Client → Client
move_assign c other = other

module _ {ℓ κ} {A : Type ℓ} {B : Type κ} (f : A → B) where
  map-append : (s t : List A) → map f (s ++ t) ≡ map f s ++ map f t
  map-append [] t = refl
  map-append (x ∷ s) t = ap (λ l. f x ∷ l) (map-append s t)

regroup {ℓ} :
    {A : Type ℓ} (a b d s t : List A) → a ++ (b ++ (d ++ (s ++ t))) ≡ (a ++ (b ++ (d ++ s))) ++ t
regroup a b d s t = sym (
    append_assoc a (b ++ (d ++ s)) t
    ∙ ap (λ l. a ++ l) (append_assoc b (d ++ s) t ∙ ap (λ l. b ++ l) (append_assoc d s t)))

-- A line among the fourth of five groups, which stand behind a first line.
around {ℓ} :
    {A : Type ℓ} (line x : A) (a b d s t group last : List A)
    → group ≡ s ++ (x ∷ t)
    → (first rest : List A) × (line ∷ (a ++ (b ++ (d ++ (group ++ last)))) ≡ first ++ (x ∷ rest))
around line x a b d s t group last e = (
  line ∷ (a ++ (b ++ (d ++ s))),
  t ++ last,
  ap (λ g. line ∷ (a ++ (b ++ (d ++ (g ++ last))))) e
      ∙ ap (λ g. line ∷ (a ++ (b ++ (d ++ g)))) (append_assoc s (x ∷ t) last)
      ∙ ap (λ g. line ∷ g) (regroup a b d s (x ∷ (t ++ last))),
)

-- Where the headers have a pair, the lines of the request have one for it.
lines-split :
    (c : Client) (method : Method) (path : Bytes) (pair : Bytes × Bytes) (before after : Dict)
    → c.headers ≡ before ++ (pair ∷ after)
    → (first last : List Bytes) × (request_lines c method path ≡ first ++ (header_text pair ∷ last))
unfolding request_lines
lines-split c method path pair before after e =
    around (request_line c method path) (header_text pair)
      (unless_set c (ascii "Host") (ascii "Host: " ++ c_str c.uri.host))
      (unless_set c (ascii "Accept") (ascii "Accept: */*"))
      (unless_set c (ascii "Connection") (ascii "Connection: close")) (map header_text before)
      (map header_text after) (map header_text c.headers) (size_line c)
      (ap (map header_text) e ∙ map-append header_text before (pair ∷ after))

-- Reading a header that a client does not have gives the empty text and adds it: the client then has
-- that header and no other new one, and each request of it has a line for it.
pub header_adds :
    (c : Client) (key : Bytes) (method : Method) (path : Bytes)
    → lookup key c.headers ≡ none
    → let (v, c') = header key c in
      (v ≡ [])
      × ((j : Bytes) → lookup j c'.headers ≡ (if same key j then some [] else lookup j c.headers))
      × ((before after : List Bytes) × (request_lines c' method path
            ≡ before ++ (header_text (key, []) ∷ after)))
unfolding header
header_adds c key method path e =
    let c' = (record c {
      transfer = record {
        content = c.content;
        headers = assign key [] c.headers;
        version = c.version;
      };
    }) in
    let (before, after, split) = assign-split key [] c.headers in
    rw (e, header)
      (
        refl,
        (λ j. lookup-assign key j [] c.headers),
        lines-split c' method path (key, []) before after split,
      )
