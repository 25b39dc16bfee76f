-- ===== src/Crest/Tests.antt =====
-- An interactive session at concrete lines.
use libcoda_net.Base.{
  Bytes, some, true, order, assign, insert_all, lookup, All, Dict, same, [], ◌∷◌, ◌++◌, ascii, ◌≡◌,
  refl, arith,
}
use libcoda_net.Http.{post, method_name}
use libcoda_net.Crest.{
  jester, Jester, start, get_method, get_headers, finished, on_line, on_pair, split_arg, split_key,
}
use libcoda_net.Uri.Parse
use libcoda_net.Http.Scan.{skip_space, word, after_word, plus}
use libcoda_net.Http.Client.{client, Client, Implementation}
use libcoda_net.Crest.Config.{
  read, save, entries_text, overwrite, words, first_word, read_words, read_entry, split_entry,
}
use libcoda_net.Crest.History.{IsEntry, read-save}
use libcoda_net.Crest.Options.{parse_options, headers_options, data_options, parse_options-start}
use libcoda_net.Crest.Session.{session_lines}

abbrev fields : Dict
fields = (ascii "Accept", ascii "text/html") ∷ []

abbrev form : Dict
form = (ascii "a", ascii "1") ∷ (ascii "b", []) ∷ []

abbrev draft : Jester
draft = record jester { content = ascii "old" }

-- An empty line, which `getline` gives at the end of the input too, is asked for again.
empty_header_line : start get_headers ([] ∷ [] ∷ []) draft ≡ (get_headers, [], draft)
unfolding start on_line on_pair split_arg split_key same
empty_header_line = refl

parse_options-start_example :
    ((parse_options
        ((b'm', method_name post) ∷ (headers_options fields ++ data_options form))
        draft).0
      ≡ true)
    × ((start get_method (session_lines post fields form []) draft).0 ≡ finished)
    × ((parse_options
          ((b'm', method_name post) ∷ (headers_options fields ++ data_options form))
          draft).1
        ≡ (start get_method (session_lines post fields form []) draft).2)
parse_options-start_example =
    parse_options-start post fields form [] draft ((refl, omega arith), tt)
      ((refl, omega arith), ((refl, omega arith), tt))

-- The entries that one run leaves.
abbrev settings : Dict
settings = (ascii "method", ascii "GET") ∷ (ascii "uri", ascii "http://a.b/?q=1") ∷ []

settings-IsEntry : All IsEntry settings
settings-IsEntry = ground arith

read-save_example :
    lookup (ascii "uri") (read (save settings (ascii "old=1\n")) []) ≡ lookup (ascii "uri") settings
unfolding entries_text
read-save_example =
    read-save settings (ascii "old=1\n") (ascii "uri") settings-IsEntry (omega arith)

-- A longer file keeps its end, which is read as entries of the new one.
stale_end :
    read (save ((ascii "k", ascii "v") ∷ []) (ascii "k=value\nuri=x\n")) []
    ≡ (ascii "k", ascii "v") ∷ (ascii "uri", ascii "x") ∷ []
unfolding read save entries_text overwrite words first_word skip_space word after_word read_words
    read_entry split_entry insert_all assign order lookup same
stale_end = refl

abbrev chosen : Jester
chosen = record jester { method = post; uri = Parse.blank (ascii "http://a.b") }

abbrev reply : Bytes
reply = ascii "HTTP/1.1 200 OK\r\n\r\nbody"

-- An implementation that always answers in the same way.
abbrev answering : Implementation
answering c method path = some (c, reply)

abbrev saved : Bytes
saved = ascii "uri=http://a.b\n"

abbrev restored : Jester
restored = record jester { uri = Parse.uri (ascii "http://a.b") (ascii "http") }

abbrev answered : Client
answered = record (client restored.uri) {
  response = record {
    transfer = record { content = ascii "body"; headers = []; version = ascii "1.1" };
    value = reply;
    code = plus 200;
  };
}
