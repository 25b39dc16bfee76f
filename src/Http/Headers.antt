-- ===== src/Http/Headers.antt =====
-- The headers of a client as a function from names to values: what the calls of a client do to it, and
-- that a request depends on nothing else of them.
use mathlib.Core.Path.{subst, fun_ext}
use libcoda_net.Base.{
  Bool, true, false, Option, none, some, List, [], ◌∷◌, ◌≡◌, ◌∙◌, refl, sym, ap, if◌then◌else◌,
  Bytes, Dict, lookup, assign, lookup-assign, lookup-erase, same, same_iff, inl, inr, Option-cases,
}
use libcoda_net.Base.Maps.Canonical.{
  IsSorted, assign-IsSorted, erase-IsSorted, insert_all-IsSorted, same_entries,
}
use libcoda_net.Socket.{is_some}
use libcoda_net.Http.{Method}
use libcoda_net.Http.Client.{
  Client, with_headers, add_header, add_headers, remove_header, insert_all-lookup,
}
use libcoda_net.Http.Objects.{header}
use libcoda_net.Http.Request.{request_lines}

-- A call that can change the headers; reading one can.
pub data Change : Type 0 where
  adds : Bytes → Bytes → Change
  adds_all : Dict → Change
  removes : Bytes → Change
  reads : Bytes → Change

unfoldable pub change : Change → Client → Client
unfolding add_header add_headers remove_header header
change (adds key value) c = add_header key value c
change (adds_all values) c = add_headers values c
change (removes key) c = remove_header key c
change (reads key) c = (header key c).1

unfoldable pub change_all : List Change → Client → Client
unfolding change
change_all [] c = c
change_all (a ∷ changes) c = change_all changes (change a c)

-- The abstract headers.
abbrev pub Headers : Type 0
Headers = Bytes → Option Bytes

abbrev pub headers_of : Client → Headers
headers_of c j = lookup j c.headers

abbrev or_else : Option Bytes → Option Bytes → Option Bytes
or_else none o = o
or_else (some v) o = some v

unfoldable pub spec : Change → Headers → Headers
spec (adds key value) f j = if same key j then some value else f j
spec (adds_all values) f j = or_else (f j) (lookup j values)
spec (removes key) f j = if same key j then none else f j
spec (reads key) f j = or_else (f j) (if same key j then some [] else none)

unfoldable pub spec_all : List Change → Headers → Headers
unfolding spec
spec_all [] f = f
spec_all (a ∷ changes) f = spec_all changes (spec a f)

pick : (o q : Option Bytes) → (if is_some o then o else q) ≡ or_else o q
pick none q = refl
pick (some v) q = refl

or_else-none : (o : Option Bytes) → or_else o none ≡ o
or_else-none none = refl
or_else-none (some v) = refl

-- What reading a header leaves.
header-none :
    (key : Bytes) (c : Client)
    → lookup key c.headers ≡ none
    → (header key c).1 ≡ with_headers c (assign key [] c.headers)
unfolding header
header-none key c e = rw (e, header) refl

header-some : (key v : Bytes) (c : Client) → lookup key c.headers ≡ some v → (header key c).1 ≡ c
unfolding header
header-some key v c e = rw (e, header) refl

if-same :
    (key j : Bytes) (f : Headers) (t : Bool)
    → same key j ≡ t
    → f key ≡ none
    → (if t then some [] else f j) ≡ or_else (f j) (if t then some [] else none)
if-same key j f false e n = sym (or_else-none (f j))
if-same key j f true e n =
    let at : f j ≡ none = subst (λ k. f k ≡ none) ((same_iff key j).0 e) n in
    ap (λ o. or_else o (some [])) (sym at)

if-there :
    (key j v : Bytes) (f : Headers) (t : Bool)
    → same key j ≡ t
    → f key ≡ some v
    → f j ≡ or_else (f j) (if t then some [] else none)
if-there key j v f false e n = sym (or_else-none (f j))
if-there key j v f true e n =
    let at : f j ≡ some v = subst (λ k. f k ≡ some v) ((same_iff key j).0 e) n in
    at ∙ ap (λ o. or_else o (some [])) (sym at)

change-spec :
    (a : Change) (c : Client) (j : Bytes) → headers_of (change a c) j ≡ spec a (headers_of c) j
unfolding change spec add_header add_headers remove_header header
change-spec (adds key value) c j = lookup-assign key j value c.headers
change-spec (adds_all values) c j =
    insert_all-lookup j values c.headers ∙ pick (lookup j c.headers) (lookup j values)
change-spec (removes key) c j = lookup-erase key j c.headers
change-spec (reads key) c j = elim (Option-cases (lookup key c.headers)) [
  | inl e ↦
      ap (λ x. lookup j x.headers) (header-none key c e)
      ∙ lookup-assign key j [] c.headers
      ∙ if-same key j (headers_of c) (same key j) refl e
  | inr (v, e) ↦
      ap (λ x. lookup j x.headers) (header-some key v c e)
      ∙ if-there key j v (headers_of c) (same key j) refl e
]

change-IsSorted : (a : Change) (c : Client) → IsSorted c.headers → IsSorted (change a c).headers
unfolding change add_header add_headers remove_header header
change-IsSorted (adds key value) c s = assign-IsSorted key value c.headers s
change-IsSorted (adds_all values) c s = insert_all-IsSorted values c.headers s
change-IsSorted (removes key) c s = erase-IsSorted key c.headers s
change-IsSorted (reads key) c s = elim (Option-cases (lookup key c.headers)) [
  | inl e ↦
      subst (λ x. IsSorted x.headers) (sym (header-none key c e))
        (assign-IsSorted key [] c.headers s)
  | inr (v, e) ↦ subst (λ x. IsSorted x.headers) (sym (header-some key v c e)) s
]

change-headers : (a : Change) (c : Client) → change a c ≡ with_headers c (change a c).headers
unfolding change add_header add_headers remove_header header
change-headers (adds key value) c = refl
change-headers (adds_all values) c = refl
change-headers (removes key) c = refl
change-headers (reads key) c = elim (Option-cases (lookup key c.headers)) [
  | inl e ↦ header-none key c e ∙ ap (λ x. with_headers c x.headers) (sym (header-none key c e))
  | inr (v, e) ↦
      header-some key v c e ∙ ap (λ x. with_headers c x.headers) (sym (header-some key v c e))
]

-- The same of any sequence of calls.
change_all-spec_all :
    (changes : List Change) (c : Client) (f : Headers)
    → ((j : Bytes) → headers_of c j ≡ f j)
    → (j : Bytes) → headers_of (change_all changes c) j ≡ spec_all changes f j
unfolding change_all spec_all
change_all-spec_all [] c f h = h
change_all-spec_all (a ∷ changes) c f h =
    change_all-spec_all changes (change a c) (spec a f)
      (λ j. change-spec a c j ∙ ap (λ g. spec a g j) (fun_ext h))

change_all-IsSorted :
    (changes : List Change) (c : Client)
    → IsSorted c.headers
    → IsSorted (change_all changes c).headers
unfolding change_all
change_all-IsSorted [] c s = s
change_all-IsSorted (a ∷ changes) c s =
    change_all-IsSorted changes (change a c) (change-IsSorted a c s)

change_all-headers :
    (changes : List Change) (c : Client)
    → change_all changes c ≡ with_headers c (change_all changes c).headers
unfolding change_all
change_all-headers [] c = refl
change_all-headers (a ∷ changes) c =
    change_all-headers changes (change a c)
    ∙ ap (λ x. with_headers x (change_all changes (change a c)).headers) (change-headers a c)

-- What a sequence of calls on a client does to its headers, the reading of some included, is what the
-- specification does to a function from names to values. Two sequences after which these functions are
-- the same leave the same client, and so the same lines of any request, in whatever order the headers
-- were added. The map of the headers is in the order of its names, as it is in a new client.
pub change_all-abstract :
    (changes others : List Change) (c : Client) (method : Method) (path : Bytes)
    → IsSorted c.headers
    → ((j : Bytes) → spec_all changes (headers_of c) j ≡ spec_all others (headers_of c) j)
    → ((j : Bytes) → headers_of (change_all changes c) j ≡ spec_all changes (headers_of c) j)
      × (change_all changes c ≡ change_all others c)
      × (request_lines (change_all changes c) method path
          ≡ request_lines (change_all others c) method path)
change_all-abstract changes others c method path s h =
    let agrees = λ (l : List Change). change_all-spec_all l c (headers_of c) (λ j. refl) in
    let maps =
      same_entries (change_all changes c).headers (change_all others c).headers
        (change_all-IsSorted changes c s) (change_all-IsSorted others c s)
        (λ j. agrees changes j ∙ h j ∙ sym (agrees others j)) in
    let clients =
      change_all-headers changes c ∙ ap (with_headers c) maps ∙ sym (change_all-headers others c) in
    (agrees changes, clients, ap (λ x. request_lines x method path) clients)
