-- ===== src/Crest/Program.antt =====
-- crest/main.cpp: one run of the program. The lines are those of the interactive session, `path` is
-- the argument behind the options, and the file is that of the history; its content is kept apart
-- from what is printed, which is left out.
use libcoda_net.Base.{
  Bool, ◌∙◌, ap, ℕ, ◌≤◌, Bool, true, false, not, Option, some, List, [], ◌==◌, if◌then◌else◌, Bytes,
  Dict, ascii, length, is_empty, lookup, lookup-assign, assign, same, All, ◌≡◌, ◌∙◌, refl,
}
use libcoda_net.Uri.Parse.{Uri}
use libcoda_net.Uri.Parse
use libcoda_net.Http.{Method, method_name, options, head, get, post, put, delete, connect, trace}
use libcoda_net.Http.Scan.{Code, plus, minus}
use libcoda_net.Http.Client.{
  Client, Implementation, Requested, requested, invalid_implementation, invalid_uri, failed,
  bad_response,
}
use libcoda_net.Crest.{
  Jester, jester, set_method, set_found, find_method, set_uri, State, get_method, get_headers,
  get_data, finished, start,
}
use libcoda_net.Crest.Options.{parse_options, execute}
use libcoda_net.Crest.Config
use libcoda_net.Crest.Config.{read, save, entries_text}
use libcoda_net.Crest.History.{IsEntry, read-save}

-- How the program ends: with a status, and the history; or by an exception that nothing catches; or
-- it waits for a line that has not come.
pub data Exit : Type 0 where
  exited : ℕ → Bytes → Exit
  aborted : Bytes → Exit
  waiting : Exit

-- The history, and the jester that it sets up.
unfoldable pub set_up : Bytes × Dict → Bytes × Dict → Dict × Jester
unfolding set_method set_uri
set_up (method, h) (uri, h') = (h', set_uri uri (set_method method jester).1)

unfoldable pub load : Bytes → Dict × Jester
unfolding set_up Config.get read
load file =
    let m = Config.get (ascii "method") (read file []) in set_up m (Config.get (ascii "uri") m.1)

unfoldable pub remember : Jester → Dict → Dict
unfolding Config.put
remember j history =
    Config.put (ascii "uri") j.uri.uri (Config.put (ascii "method") (method_name j.method) history)

unfoldable pub is_ok : Code → Bool
is_ok (plus n) = n == 200
is_ok (minus n) = false

-- The status is 1 also for EXIT_FAILURE.
unfoldable pub status_of : Bytes → Requested → Exit
unfolding is_ok
status_of file (requested c) = exited (if is_ok c.response.code then 1 else 0) file
status_of file invalid_implementation = exited 1 file
status_of file invalid_uri = exited 1 file
status_of file failed = exited 1 file
status_of file bad_response = aborted file

module _ (json : Dict → Bytes) (impl : Option Implementation) (path file : Bytes) where
  -- From `validate` on.
  unfoldable pub finish : Dict → Jester → Exit
  unfolding remember save status_of execute
  finish history j =
      if not j.uri.is_valid
      then exited 1 file
      else status_of (save (remember j history) file) (execute json impl path j)

  unfoldable pub after_session : Dict → State × List Bytes × Jester → Exit
  unfolding finish
  after_session history (finished, left, j) = finish history j
  after_session history (get_method, left, j) = waiting
  after_session history (get_headers, left, j) = waiting
  after_session history (get_data, left, j) = waiting

  unfoldable pub after_options : List Bytes → Dict → Bool × Jester → Exit
  unfolding after_session start
  after_options lines history (false, j) = exited 1 file
  after_options lines history (true, j) =
      if j.interactive then after_session history (start get_method lines j) else finish history j

  -- `mkdir_ok` is whether the folder is there or can be made.
  unfoldable pub main : Bool → List (ℕ × Bytes) → List Bytes → Exit
  unfolding after_options parse_options load
  main mkdir_ok opts lines =
      if not mkdir_ok
      then exited 1 file
      else (let loaded = load file in after_options lines loaded.0 (parse_options opts loaded.1))

set_method-method_name :
    (m : Method) (j : Jester) → set_method (method_name m) j ≡ (true, record j { method = m })
unfolding set_method find_method set_found same
set_method-method_name options j = refl
set_method-method_name head j = refl
set_method-method_name get j = refl
set_method-method_name post j = refl
set_method-method_name put j = refl
set_method-method_name delete j = refl
set_method-method_name connect j = refl
set_method-method_name trace j = refl

get-lookup :
    (key v : Bytes) (values : Dict)
    → is_empty key ≡ false
    → lookup key values ≡ some v
    → Config.get key values ≡ (v, values)
unfolding Config.get
get-lookup key v values ne e = rw (e, ne, Config.get) refl

remember-lookup :
    (j : Jester) (history : Dict)
    → (lookup (ascii "method") (remember j history) ≡ some (method_name j.method))
      × (lookup (ascii "uri") (remember j history) ≡ some j.uri.uri)
unfolding remember Config.put same
remember-lookup j history =
    let named = assign (ascii "method") (method_name j.method) history in
    (
      lookup-assign (ascii "uri") (ascii "method") j.uri.uri named
          ∙ lookup-assign (ascii "method") (ascii "method") (method_name j.method) history,
      lookup-assign (ascii "uri") (ascii "uri") j.uri.uri named,
    )

load-lookup :
    (file uri : Bytes) (m : Method)
    → lookup (ascii "method") (read file []) ≡ some (method_name m)
    → lookup (ascii "uri") (read file []) ≡ some uri
    → (load file).1 ≡ record jester { method = m; uri = Parse.uri uri (ascii "http") }
unfolding load set_up set_uri
load-lookup file uri m hm hu =
    let h = read file [] in
    ap (λ (r : Bytes × Dict). (set_up r (Config.get (ascii "uri") r.1)).1)
      (get-lookup (ascii "method") (method_name m) h refl hm)
    ∙ ap (λ (r : Bytes × Dict). (set_up (method_name m, h) r).1)
        (get-lookup (ascii "uri") uri h refl hu)
    ∙ ap (λ (r : Bool × Jester). set_uri uri r.1) (set_method-method_name m jester)

-- What a run remembers in a history that is not longer than what it writes, and whose entries are
-- free of white space, sets up the next run: the same method, and the URI of the same text.
pub load-remember :
    (j : Jester) (history : Dict) (file : Bytes)
    → All IsEntry (remember j history)
    → length file ≤ length (entries_text (remember j history))
    → (load (save (remember j history) file)).1
      ≡ record jester { method = j.method; uri = Parse.uri j.uri.uri (ascii "http") }
load-remember j history file h le =
    let (hm, hu) = remember-lookup j history in
    load-lookup (save (remember j history) file) j.uri.uri j.method
      (read-save (remember j history) file (ascii "method") h le ∙ hm)
      (read-save (remember j history) file (ascii "uri") h le ∙ hu)

-- A run that reaches its request and gets an answer that is parsed ends with the status 1 if the
-- answer's code is 200 and with 0 for every other code, and leaves the history.
pub main_status :
    (json : Dict → Bytes) (impl : Option Implementation) (path file : Bytes)
    (opts : List (ℕ × Bytes)) (lines : List Bytes) (j : Jester) (c : Client) (n : ℕ)
    → parse_options opts (load file).1 ≡ (true, j)
    → j.interactive ≡ false
    → j.uri.is_valid ≡ true
    → execute json impl path j ≡ requested c
    → c.response.code ≡ plus n
    → main json impl path file true opts lines
      ≡ exited (if n == 200 then 1 else 0) (save (remember j (load file).0) file)
unfolding main after_options finish status_of is_ok
main_status json impl path file opts lines j c n p i v e code =
    let history = (load file).0 in
    let left = save (remember j history) file in
    let late = after_session json impl path file history (start get_method lines j) in
    ap (after_options json impl path file lines history) p
    ∙ ap (λ b. if b then late else finish json impl path file history j) i
    ∙ ap (λ b. if not b then exited 1 file else status_of left (execute json impl path j)) v
    ∙ ap (status_of left) e
    ∙ ap (λ (k : Code). exited (if is_ok k then 1 else 0) left) code
