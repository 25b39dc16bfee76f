-- ===== src/Crest.antt =====
-- http/crest: the options of a request (jester.cpp) and the interactive session (util.cpp), which
-- reads lines; its prompts are left out.
pub mod Session
pub mod Options
pub mod Config
pub mod History
pub mod Program
mod Tests
use libcoda_net.Base.{
  ℕ, Bool, true, false, Option, none, some, List, [], ◌∷◌, if◌then◌else◌, Bytes, Dict, assign,
  before_first, from_first, is_empty, same, ascii,
}
use libcoda_net.Uri.Parse.{Uri, blank}
use libcoda_net.Uri.Parse
use libcoda_net.Http.{Method, method_name, options, head, get, post, put, delete, connect, trace}

pub record Jester : Type 0 where
  pub method : Method
  pub headers : Dict
  pub data_ : Dict
  pub content : Bytes
  pub uri : Uri
  pub interactive : Bool

-- `jester::jester`.
abbrev pub jester : Jester
jester = record {
  method = get;
  headers = [];
  data_ = [];
  content = [];
  uri = blank [];
  interactive = false;
}

-- By what is before the delimiter, and what is from it on.
unfoldable pub split_key : Bytes → Bytes → Option (Bytes × Bytes)
split_key key [] = none
split_key key (mark ∷ value) = if is_empty key then none else some (key, value)

-- `jest::split_arg`, for a delimiter of one byte; `none` is a null pointer.
unfoldable pub split_arg : ℕ → Bytes → Option (Bytes × Bytes)
unfolding split_key before_first from_first
split_arg delimiter arg = split_key (before_first delimiter arg) (from_first delimiter arg)

abbrev pub methods : List Method
methods = options ∷ head ∷ get ∷ post ∷ put ∷ delete ∷ connect ∷ trace ∷ []

unfoldable pub find_method : Bytes → List Method → Option Method
find_method value [] = none
find_method value (m ∷ ms) = if same value (method_name m) then some m else find_method value ms

-- `set_method` of a name, and whether there is such a method.
unfoldable pub set_found : Option Method → Jester → Bool × Jester
set_found none j = (false, j)
set_found (some m) j = (true, record j { method = m })

unfoldable pub set_method : Bytes → Jester → Bool × Jester
unfolding find_method set_found
set_method value j = set_found (find_method value methods) j

-- `uri(value)` has the default scheme http.
unfoldable pub set_uri : Bytes → Jester → Jester
unfolding Parse.uri
set_uri value j = record j { uri = Parse.uri value (ascii "http") }

unfoldable pub set_content : Bytes → Jester → Jester
set_content value j = record j { content = value; data_ = [] }

unfoldable pub append_header : Bytes × Bytes → Jester → Jester
append_header (key, value) j = record j { headers = assign key value j.headers }

unfoldable pub append_data : Bytes × Bytes → Jester → Jester
append_data (key, value) j = record j { data_ = assign key value j.data_; content = [] }

-- `state_`; the last is null.
pub data State : Type 0 where
  get_method get_headers get_data finished : State

unfoldable pub after_method : Bool × Jester → State × Jester
after_method (true, j) = (get_headers, j)
after_method (false, j) = (get_method, j)

unfoldable pub on_method : Bytes → Jester → State × Jester
unfolding set_method after_method
on_method input j = if is_empty input then (get_headers, j) else after_method (set_method input j)

-- A line other than the tilde, by the parts of it.
unfoldable pub on_pair :
    State → (Bytes × Bytes → Jester → Jester) → Option (Bytes × Bytes) → Jester → State × Jester
on_pair state append none j = (state, j)
on_pair state append (some pair) j = (state, append pair j)

unfoldable pub on_line : State → Bytes → Jester → State × Jester
unfolding on_method on_pair split_arg append_header append_data
on_line get_method input j = on_method input j
on_line get_headers input j =
    if same input (b'~' ∷ [])
    then (get_data, j)
    else on_pair get_headers append_header (split_arg b':' input) j
on_line get_data input j =
    if same input (b'~' ∷ [])
    then (finished, j)
    else on_pair get_data append_data (split_arg b'=' input) j
on_line finished input j = (finished, j)

-- `start`, over the lines that are there: the state, and the lines that are left.
unfoldable pub start : State → List Bytes → Jester → State × List Bytes × Jester
unfolding on_line
start finished lines j = (finished, lines, j)
start state [] j = (state, [], j)
start state (line ∷ lines) j = (let r = on_line state line j in start r.0 lines r.1)
