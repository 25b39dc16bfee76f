-- ===== src/Crest/History.antt =====
-- What is read back from a configuration file that was saved.
use libcoda_net.Base.{
  ℕ, zero, suc, ◌≤◌, false, [], ◌∷◌, ◌++◌, Bytes, Dict, length, length-append, lookup, insert_all,
  before_first-hit, from_first-hit, All, All-append, Without, ◌≡◌, ◌∙◌, refl, ap, sym, arith,
  append_assoc, map,
}
use libcoda_net.Http.Scan.{is_space, skip_space, word, after_word}
use libcoda_net.Http.Client.{insert_all-lookup}
use libcoda_net.Crest.Config.{
  first_word, words, split_entry, read_entry, read_words, read, entries_text, overwrite, save,
}

-- No byte is white space.
abbrev pub IsWord : Bytes → Type 0
IsWord = All (λ c. is_space c ≡ false)

-- A key without white space and equals signs, and a value without white space.
abbrev pub IsEntry : Bytes × Bytes → Type 0
IsEntry (k, v) = IsWord k × Without b'=' k × IsWord v

abbrev pub entry_text : Bytes × Bytes → Bytes
entry_text (k, v) = k ++ (b'=' ∷ v)

entry-IsWord : (e : Bytes × Bytes) → IsEntry e → IsWord (entry_text e)
entry-IsWord (k, v) h = All-append _ k (b'=' ∷ v) h.0 (refl, h.2)

word-IsWord : (w s : Bytes) → IsWord w → word (w ++ (b'\n' ∷ s)) ≡ w
unfolding word
word-IsWord [] s h = refl
word-IsWord (c ∷ w) s h = rw (h.0) (ap (◌∷◌ c) (word-IsWord w s h.1))

after_word-IsWord : (w s : Bytes) → IsWord w → after_word (w ++ (b'\n' ∷ s)) ≡ b'\n' ∷ s
unfolding after_word
after_word-IsWord [] s h = refl
after_word-IsWord (c ∷ w) s h = rw (h.0) (after_word-IsWord w s h.1)

words-newline : (fuel : ℕ) (s : Bytes) → words fuel (b'\n' ∷ s) ≡ words fuel s
unfolding words skip_space
words-newline zero s = refl
words-newline (suc fuel) s = refl

skip_space-word : (c : ℕ) (s : Bytes) → is_space c ≡ false → skip_space (c ∷ s) ≡ c ∷ s
unfolding skip_space
skip_space-word c s h = rw (h, skip_space) refl

words-word :
    (fuel c : ℕ) (w s : Bytes)
    → IsWord (c ∷ w)
    → words (suc fuel) ((c ∷ w) ++ (b'\n' ∷ s)) ≡ (c ∷ w) ∷ words fuel s
unfolding words first_word
words-word fuel c w s h =
    rw (skip_space-word c (w ++ (b'\n' ∷ s)) (h.0), words)
      (rw (word-IsWord (c ∷ w) s h, after_word-IsWord (c ∷ w) s h, words-newline fuel s) refl)

words-entry :
    (fuel : ℕ) (e : Bytes × Bytes) (s : Bytes)
    → IsEntry e
    → words (suc fuel) (entry_text e ++ (b'\n' ∷ s)) ≡ entry_text e ∷ words fuel s
words-entry fuel ([], v) s h = words-word fuel b'=' v s (refl, h.2)
words-entry fuel (c ∷ k, v) s h = words-word fuel c (k ++ (b'=' ∷ v)) s (entry-IsWord (c ∷ k, v) h)

words-entries :
    (fuel : ℕ) (m : Dict)
    → All IsEntry m
    → length m ≤ fuel
    → words fuel (entries_text m) ≡ map entry_text m
unfolding entries_text words
words-entries zero [] h le = refl
words-entries (suc fuel) [] h le = refl
words-entries zero (e ∷ m) h le = grind arith
words-entries (suc fuel) ((k, v) ∷ m) h le =
    ap (words (suc fuel)) (sym (append_assoc k (b'=' ∷ v) (b'\n' ∷ entries_text m)))
    ∙ words-entry fuel (k, v) (entries_text m) h.0
    ∙ ap (◌∷◌ (entry_text (k, v))) (words-entries fuel m h.1 (omega arith))

read_entry-entry_text : (last e : Bytes × Bytes) → IsEntry e → read_entry last (entry_text e) ≡ e
unfolding read_entry split_entry
read_entry-entry_text last (k, v) h =
    rw (from_first-hit b'=' k v h.1, before_first-hit b'=' k v h.1) refl

read_words-entries :
    (last : Bytes × Bytes) (m values : Dict)
    → All IsEntry m
    → read_words last (map entry_text m) values ≡ insert_all m values
unfolding read_words insert_all
read_words-entries last [] values h = refl
read_words-entries last (e ∷ m) values h =
    rw (read_entry-entry_text last e h.0, read_words)
      (read_words-entries e m (insert_all (e ∷ []) values) h.1)

overwrite-longer : (s old : Bytes) → length old ≤ length s → overwrite s old ≡ s
unfolding overwrite
overwrite-longer [] [] h = refl
overwrite-longer [] (d ∷ old) h = grind arith
overwrite-longer (c ∷ s) [] h = refl
overwrite-longer (c ∷ s) (d ∷ old) h = ap (◌∷◌ c) (overwrite-longer s old (omega arith))

length-entries_text : (m : Dict) → length m ≤ length (entries_text m)
unfolding entries_text
length-entries_text [] = omega arith
length-entries_text ((k, v) ∷ m) = omega (
  arith,
  length-entries_text m,
  length-append k (b'=' ∷ (v ++ (b'\n' ∷ entries_text m))),
  length-append v (b'\n' ∷ entries_text m),
)

-- A map without white space in its keys and values, and without equals signs in its keys, that is
-- saved over a file that is not longer is what a configuration reads from that file: every key has
-- the value that it had.
pub read-save :
    (m : Dict) (old key : Bytes)
    → All IsEntry m
    → length old ≤ length (entries_text m)
    → lookup key (read (save m old) []) ≡ lookup key m
unfolding read save lookup
read-save m old key h le = rw (overwrite-longer (entries_text m) old le) (
    rw (words-entries (length (entries_text m)) m h (length-entries_text m))
      (rw (read_words-entries ([], []) m [] h) (insert_all-lookup key m [])))
