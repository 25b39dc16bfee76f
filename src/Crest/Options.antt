-- ===== src/Crest/Options.antt =====
-- `jester::parse_options` and `jester::execute`. An option is what one call of `getopt_long` returns:
-- its letter and `optarg`.
use libcoda_net.Base.{
  ℕ, Bool, true, false, Option, none, some, List, [], ◌∷◌, ◌++◌, map, ◌==◌, if◌then◌else◌, Bytes,
  Dict, is_empty, All, ◌≡◌, ◌∙◌, refl, ap, sym, assign, same,
}
use libcoda_net.Http.{Method, method_name, options, head, get, post, put, delete, connect, trace}
use libcoda_net.Http.Messages.{assign_all}
use libcoda_net.Http.Client.{client, add_headers, set_content, Implementation, Requested, request}
use libcoda_net.Crest
use libcoda_net.Crest.{
  Jester, split_key, split_arg, methods, find_method, set_method, set_found, set_uri, append_header,
  append_data, State, get_method, finished, start,
}
use libcoda_net.Crest.Session.{
  pair_line, session_lines, IsPair, content_after, split_arg-pair_line, start-session,
  content_after_nil,
}

-- `-d` and `-h`, by the parts of the argument.
unfoldable pub with_pair :
    (Bytes × Bytes → Jester → Jester) → Option (Bytes × Bytes) → Jester → Bool × Jester
with_pair append none j = (false, j)
with_pair append (some pair) j = (true, append pair j)

-- The cases of the `switch`; false is EXIT_FAILURE.
unfoldable pub parse_option : ℕ → Bytes → Jester → Bool × Jester
unfolding with_pair set_method set_uri split_arg append_header append_data
parse_option opt optarg j =
    if opt == b'u'
    then (true, set_uri optarg j)
    else if opt == b'm'
    then set_method optarg j
    else if opt == b'd'
    then with_pair append_data (split_arg b'=' optarg) j
    else if opt == b'c'
    then (true, Crest.set_content optarg j)
    else if opt == b'i'
    then (true, record j { interactive = true })
    else if opt == b'h'
    then with_pair append_header (split_arg b':' optarg) j
    else (false, j)

unfoldable pub parse_options : List (ℕ × Bytes) → Jester → Bool × Jester
unfolding parse_option
parse_options [] j = (true, j)
parse_options ((opt, optarg) ∷ opts) j =
    let r = parse_option opt optarg j in
    let rest = parse_options opts r.1 in if r.0 then rest else (false, r.1)

-- `execute`; `json` is the JSON encoder of a map, which leaves a text as it is.
unfoldable pub execute : (Dict → Bytes) → Option Implementation → Bytes → Jester → Requested
unfolding client add_headers set_content request
execute json impl path j =
    let c = add_headers j.headers (client j.uri) in
    request impl j.method path (
      if is_empty j.data_
      then (if is_empty j.content then c else set_content j.content c)
      else set_content (json j.data_) c)

abbrev pub headers_options : Dict → List (ℕ × Bytes)
headers_options = map (λ kv. (b'h', pair_line b':' kv))

abbrev pub data_options : Dict → List (ℕ × Bytes)
data_options = map (λ kv. (b'd', pair_line b'=' kv))

parse_options-step :
    (opt : ℕ) (optarg : Bytes) (opts : List (ℕ × Bytes)) (j j' : Jester)
    → parse_option opt optarg j ≡ (true, j')
    → parse_options ((opt, optarg) ∷ opts) j ≡ parse_options opts j'
unfolding parse_options
parse_options-step opt optarg opts j j' e = rw (e, parse_options) refl

parse_option-header :
    (kv : Bytes × Bytes) (j : Jester)
    → IsPair b':' kv
    → parse_option b'h' (pair_line b':' kv) j ≡ (true, append_header kv j)
unfolding parse_option with_pair
parse_option-header kv j h = rw (split_arg-pair_line b':' kv h) refl

parse_option-data :
    (kv : Bytes × Bytes) (j : Jester)
    → IsPair b'=' kv
    → parse_option b'd' (pair_line b'=' kv) j ≡ (true, append_data kv j)
unfolding parse_option with_pair
parse_option-data kv j h = rw (split_arg-pair_line b'=' kv h) refl

parse_options-headers :
    (hs : Dict) (opts : List (ℕ × Bytes)) (j : Jester)
    → All (IsPair b':') hs
    → parse_options (headers_options hs ++ opts) j
      ≡ parse_options opts (record j { headers = assign_all hs j.headers })
unfolding assign_all append_header
parse_options-headers [] opts j h = refl
parse_options-headers (kv ∷ hs) opts j h =
    parse_options-step b'h' (pair_line b':' kv) (headers_options hs ++ opts) j (append_header kv j)
      (parse_option-header kv j h.0)
    ∙ parse_options-headers hs opts (append_header kv j) h.1

parse_options-data :
    (ds : Dict) (j : Jester)
    → All (IsPair b'=') ds
    → parse_options (data_options ds) j
      ≡ (true, record j { data_ = assign_all ds j.data_; content = content_after ds j.content })
unfolding parse_options assign_all append_data content_after
parse_options-data [] j h = refl
parse_options-data (kv ∷ ds) j h =
    parse_options-step b'd' (pair_line b'=' kv) (data_options ds) j (append_data kv j)
      (parse_option-data kv j h.0)
    ∙ parse_options-data ds (append_data kv j) h.1
    ∙ ap
        (λ content.
          (true, record j { data_ = assign_all ds (assign kv.0 kv.1 j.data_); content = content }))
        (content_after_nil ds)

parse_option-method :
    (m : Method) (j : Jester)
    → parse_option b'm' (method_name m) j ≡ (true, record j { method = m })
unfolding parse_option set_method find_method set_found same
parse_option-method options j = refl
parse_option-method head j = refl
parse_option-method get j = refl
parse_option-method post j = refl
parse_option-method put j = refl
parse_option-method delete j = refl
parse_option-method connect j = refl
parse_option-method trace j = refl

-- The options -m, -h for each header and -d for each of the data set what a session sets that is
-- given the same method, header lines, tilde, data lines and tilde, where no name is empty or has the
-- mark in it: both succeed, with the same jester.
pub parse_options-start :
    (m : Method) (hs ds : Dict) (rest : List Bytes) (j : Jester)
    → All (IsPair b':') hs
    → All (IsPair b'=') ds
    → (parse_options ((b'm', method_name m) ∷ (headers_options hs ++ data_options ds)) j).0 ≡ true
      × ((start get_method (session_lines m hs ds rest) j).0 ≡ finished)
      × ((parse_options ((b'm', method_name m) ∷ (headers_options hs ++ data_options ds)) j).1
          ≡ (start get_method (session_lines m hs ds rest) j).2)
parse_options-start m hs ds rest j h d =
    let named = record j { method = m } in
    let by_options =
      parse_options-step b'm' (method_name m) (headers_options hs ++ data_options ds) j named
        (parse_option-method m j)
      ∙ parse_options-headers hs (data_options ds) named h
      ∙ parse_options-data ds (record named { headers = assign_all hs j.headers }) d in
    let by_session = start-session m hs ds rest j h d in
    (
      ap (λ r. r.0) by_options,
      ap (λ r. r.0) by_session,
      ap (λ r. r.1) by_options ∙ sym (ap (λ r. r.2) by_session),
    )
