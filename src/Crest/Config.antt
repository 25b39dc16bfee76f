-- ===== src/Crest/Config.antt =====
-- crest/config.cpp: the configuration file, which holds entries apart by white space. The file is the
-- bytes that are in it.
use libcoda_net.Base.{
  ℕ, zero, suc, none, some, List, [], ◌∷◌, ◌++◌, if◌then◌else◌, Bytes, Dict, length, is_empty,
  assign, lookup, insert_all, before_first, from_first,
}
use libcoda_net.Http.Scan.{skip_space, word, after_word}

-- One word, and those that the rest gives.
unfoldable pub first_word : (Bytes → List Bytes) → Bytes → List Bytes
unfolding word after_word
first_word more [] = []
first_word more (c ∷ s) = word (c ∷ s) ∷ more (after_word (c ∷ s))

-- The words that `is >> line` reads one after the other, on fuel.
unfoldable pub words : ℕ → Bytes → List Bytes
unfolding skip_space first_word
words zero s = []
words (suc fuel) s = first_word (words fuel) (skip_space s)

-- What `operator>>` makes of the pair: it stays where the word has no equals sign.
unfoldable pub split_entry : Bytes × Bytes → Bytes → Bytes → Bytes × Bytes
split_entry last key [] = last
split_entry last key (mark ∷ value) = (key, value)

unfoldable pub read_entry : Bytes × Bytes → Bytes → Bytes × Bytes
unfolding split_entry before_first from_first
read_entry last line = split_entry last (before_first b'=' line) (from_first b'=' line)

-- The copy to the map, from the pair that the iterator holds.
unfoldable pub read_words : Bytes × Bytes → List Bytes → Dict → Dict
unfolding read_entry insert_all
read_words last [] values = values
read_words last (w ∷ ws) values =
    let entry = read_entry last w in read_words entry ws (insert_all (entry ∷ []) values)

-- `config_io::read`.
unfoldable pub read : Bytes → Dict → Dict
unfolding read_words words
read file values = read_words ([], []) (words (length file) file) values

-- The text that `config_io::write` writes.
unfoldable pub entries_text : Dict → Bytes
entries_text [] = []
entries_text ((k, v) ∷ m) = k ++ (b'=' ∷ (v ++ (b'\n' ∷ entries_text m)))

-- The file is not cut when it is opened, so that a longer file keeps its end.
unfoldable pub overwrite : Bytes → Bytes → Bytes
overwrite [] old = old
overwrite (c ∷ s) [] = c ∷ s
overwrite (c ∷ s) (d ∷ old) = c ∷ overwrite s old

unfoldable pub save : Dict → Bytes → Bytes
unfolding entries_text overwrite
save values file = overwrite (entries_text values) file

-- `config::get`: the value, and the map, in which a key that was not there now is.
unfoldable pub get : Bytes → Dict → Bytes × Dict
unfolding lookup assign
get key values =
    if is_empty key
    then (key, values)
    else elim (lookup key values) [ none ↦ ([], assign key [] values) | some v ↦ (v, values) ]

unfoldable pub put : Bytes → Bytes → Dict → Dict
unfolding assign
put key value values = if is_empty key then values else assign key value values
