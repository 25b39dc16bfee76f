-- ===== src/Crest/Session.antt =====
-- A whole interactive session.
use libcoda_net.Base.{
  ℕ, false, some, List, [], ◌∷◌, ◌++◌, map, Bytes, Dict, assign, before_first-hit, from_first-hit,
  is_empty, same, All, Without, ◌≡◌, ◌∙◌, refl, ap, arith,
}
use libcoda_net.Http.{Method, method_name, options, head, get, post, put, delete, connect, trace}
use libcoda_net.Http.Messages.{assign_all}
use libcoda_net.Crest.{
  Jester, split_key, split_arg, find_method, append_header, append_data, State, get_method,
  get_headers, get_data, finished, on_method, set_method, set_found, after_method, on_pair, on_line,
  start,
}

abbrev pub pair_line : ℕ → Bytes × Bytes → Bytes
pair_line mark (k, v) = k ++ (mark ∷ v)

-- A name that can stand before the mark.
abbrev pub IsPair : ℕ → Bytes × Bytes → Type 0
IsPair mark (k, v) = (is_empty k ≡ false) × Without mark k

abbrev pub tilde : Bytes
tilde = b'~' ∷ []

-- The content behind a number of data lines.
unfoldable pub content_after : Dict → Bytes → Bytes
content_after [] content = content
content_after (pair ∷ pairs) content = []

pub split_arg-pair_line :
    (mark : ℕ) (kv : Bytes × Bytes) → IsPair mark kv → split_arg mark (pair_line mark kv) ≡ some kv
unfolding split_key split_arg
split_arg-pair_line mark (k, v) (named, plain) =
    rw (split_arg, from_first-hit mark k v plain, before_first-hit mark k v plain) (rw named refl)

pair_line-tilde :
    (mark : ℕ) (kv : Bytes × Bytes) → IsPair mark kv → same (pair_line mark kv) tilde ≡ false
unfolding same
pair_line-tilde mark ([], v) h = cc
pair_line-tilde mark (c ∷ [], v) h = ground arith
pair_line-tilde mark (c ∷ d ∷ k, v) h = ground arith

on_line-header :
    (kv : Bytes × Bytes) (j : Jester)
    → IsPair b':' kv
    → on_line get_headers (pair_line b':' kv) j ≡ (get_headers, append_header kv j)
unfolding on_pair on_line append_header
on_line-header kv j h =
    rw (on_line, pair_line-tilde b':' kv h) (rw (split_arg-pair_line b':' kv h) refl)

on_line-data :
    (kv : Bytes × Bytes) (j : Jester)
    → IsPair b'=' kv
    → on_line get_data (pair_line b'=' kv) j ≡ (get_data, append_data kv j)
unfolding on_pair on_line append_data
on_line-data kv j h =
    rw (on_line, pair_line-tilde b'=' kv h) (rw (split_arg-pair_line b'=' kv h) refl)

next_line : List Bytes → State × Jester → State × List Bytes × Jester
next_line lines r = start r.0 lines r.1

start-headers :
    (hs : Dict) (t : List Bytes) (j : Jester)
    → All (IsPair b':') hs
    → start get_headers (map (pair_line b':') hs ++ t) j
      ≡ start get_headers t (record j { headers = assign_all hs j.headers })
unfolding start append_header assign_all next_line
start-headers [] t j h = refl
start-headers (kv ∷ hs) t j h =
    ap (next_line (map (pair_line b':') hs ++ t)) (on_line-header kv j h.0)
    ∙ start-headers hs t (append_header kv j) h.1

pub content_after_nil : (ds : Dict) → content_after ds [] ≡ []
unfolding content_after
content_after_nil [] = refl
content_after_nil (d ∷ ds) = refl

start-data :
    (ds : Dict) (t : List Bytes) (j : Jester)
    → All (IsPair b'=') ds
    → start get_data (map (pair_line b'=') ds ++ t) j
      ≡ start get_data t
          (record j { data_ = assign_all ds j.data_; content = content_after ds j.content })
unfolding start append_data assign_all content_after next_line
start-data [] t j h = refl
start-data (kv ∷ ds) t j h =
    ap (next_line (map (pair_line b'=') ds ++ t)) (on_line-data kv j h.0)
    ∙ start-data ds t (append_data kv j) h.1
    ∙ ap
        (λ content.
          start get_data t
            (record j { data_ = assign_all ds (assign kv.0 kv.1 j.data_); content = content }))
        (content_after_nil ds)

on_method-method_name :
    (m : Method) (j : Jester) → on_method (method_name m) j ≡ (get_headers, record j { method = m })
unfolding on_method set_method find_method set_found after_method same
on_method-method_name options j = refl
on_method-method_name head j = refl
on_method-method_name get j = refl
on_method-method_name post j = refl
on_method-method_name put j = refl
on_method-method_name delete j = refl
on_method-method_name connect j = refl
on_method-method_name trace j = refl

-- The lines that the user enters.
abbrev pub session_lines : Method → Dict → Dict → List Bytes → List Bytes
session_lines m hs ds rest =
    method_name m
    ∷ (map (pair_line b':') hs ++ (tilde ∷ (map (pair_line b'=') ds ++ (tilde ∷ rest))))

-- A session of a method, header lines, a tilde, data lines and a tilde, where no name is empty or has
-- the mark in it, ends there with that method, and with the headers and the data as they are assigned
-- one after the other; data clear the content.
pub start-session :
    (m : Method) (hs ds : Dict) (rest : List Bytes) (j : Jester)
    → All (IsPair b':') hs
    → All (IsPair b'=') ds
    → start get_method (session_lines m hs ds rest) j ≡ (
      finished,
      rest,
      record j {
        method = m;
        headers = assign_all hs j.headers;
        data_ = assign_all ds j.data_;
        content = content_after ds j.content;
      },
    )
unfolding start next_line on_line same
start-session m hs ds rest j h d =
    let last = map (pair_line b'=') ds ++ (tilde ∷ rest) in
    ap (next_line (map (pair_line b':') hs ++ (tilde ∷ last))) (on_method-method_name m j)
    ∙ start-headers hs (tilde ∷ last) (record j { method = m }) h
    ∙ start-data ds (tilde ∷ rest) (record j { method = m; headers = assign_all hs j.headers }) d
