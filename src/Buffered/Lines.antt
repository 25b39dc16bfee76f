-- ===== src/Buffered/Lines.antt =====
-- `readln` on the input buffer, and the lines that `writeln` wrote.
use libcoda_net.Base.{
  ◌⊎◌, sym, Bool-cases, List-cases, inl, inr, ℕ, zero, suc, ◌≤◌, ◌<◌, Bool, true, false, ◌||◌, List,
  [], ◌∷◌, ◌++◌, append-nil, append_assoc, ◌≡◌, ◌≢◌, ◌∙◌, refl, ap, arith, ◌==◌, if◌then◌else◌,
  Bytes, All, length, is_empty,
}
use libcoda_net.Buffered.{Buffered, newline, writeln}

abbrev pub is_newline : ℕ → Bool
is_newline c = c == b'\r' || c == b'\n'

-- `find_first_of` for the bytes of NEWLINE: what is before the hit, and what is from it on.
unfoldable pub line_of : Bytes → Bytes
line_of [] = []
line_of (c ∷ s) = if is_newline c then [] else c ∷ line_of s

unfoldable pub rest_of : Bytes → Bytes
rest_of [] = []
rest_of (c ∷ s) = if is_newline c then c ∷ s else rest_of s

-- The loop that skips all newline characters.
unfoldable pub skip_newlines : Bytes → Bytes
skip_newlines [] = []
skip_newlines (c ∷ s) = if is_newline c then skip_newlines s else c ∷ s

-- The line, and the input buffer that is left.
unfoldable pub readln : Bytes → Bytes × Bytes
unfolding line_of rest_of skip_newlines
readln input =
    if is_empty input
    then ([], [])
    else if is_empty (rest_of input)
    then (input, [])
    else (line_of input, skip_newlines (rest_of input))

abbrev pub NoNewline : Bytes → Type 0
NoNewline = All (λ c. is_newline c ≡ false)

abbrev pub AllNewline : Bytes → Type 0
AllNewline = All (λ c. is_newline c ≡ true)

-- Does not begin with a newline character.
abbrev pub StartsLine : Bytes → Type 0
StartsLine [] = Unit {0}
StartsLine (c ∷ s) = is_newline c ≡ false

line-append-rest : (s : Bytes) → line_of s ++ rest_of s ≡ s
unfolding line_of rest_of
line-append-rest [] = refl
line-append-rest (c ∷ s) = ground (arith, line-append-rest s)

line_of-NoNewline : (s : Bytes) → NoNewline (line_of s)
unfolding line_of
line_of-NoNewline [] = tt
line_of-NoNewline (c ∷ s) = ground (arith, line_of-NoNewline s)

rest_nil-NoNewline : (s : Bytes) → rest_of s ≡ [] → NoNewline s
unfolding rest_of
rest_nil-NoNewline [] h = tt
rest_nil-NoNewline (c ∷ s) h = ground (arith, rest_nil-NoNewline s)

skip_newlines-split :
    (s : Bytes)
    → (gap : Bytes) × (s ≡ gap ++ skip_newlines s) × AllNewline gap × StartsLine (skip_newlines s)
unfolding skip_newlines
skip_newlines-split [] = ([], refl, tt, tt)
skip_newlines-split (c ∷ s) = elim (Bool-cases (is_newline c)) [
  | inl brk ↦
      let (gap, e, all, starts) = skip_newlines-split s in
      rw brk (c ∷ gap, ap (◌∷◌ c) e, (brk, all), starts)
  | inr other ↦ rw other ([], refl, tt, other)
]

length-skip_newlines-le : (s : Bytes) → length (skip_newlines s) ≤ length s
unfolding skip_newlines
length-skip_newlines-le [] = omega arith
length-skip_newlines-le (c ∷ s) = ground (arith, length-skip_newlines-le s)

length-rest_of-le : (s : Bytes) → length (rest_of s) ≤ length s
unfolding rest_of
length-rest_of-le [] = omega arith
length-rest_of-le (c ∷ s) = ground (arith, length-rest_of-le s)

rest_shorter : (c : ℕ) (s : Bytes) → length (skip_newlines (rest_of (c ∷ s))) ≤ length s
unfolding rest_of skip_newlines
rest_shorter c s = elim (Bool-cases (is_newline c)) [
  | inl brk ↦ rw (brk, rest_of) (rw (brk, skip_newlines) (length-skip_newlines-le s))
  | inr other ↦
      rw (other, rest_of) (omega (arith, length-skip_newlines-le (rest_of s), length-rest_of-le s))
]

-- The early returns agree with the general case.
pub readln_lem : (input : Bytes) → readln input ≡ (line_of input, skip_newlines (rest_of input))
unfolding readln
readln_lem [] = refl
readln_lem (c ∷ s) = elim (List-cases (rest_of (c ∷ s))) [
  | inl e ↦
      rw (e, readln)
        (ap (λ (l : Bytes). (l, []))
          (sym (line-append-rest (c ∷ s)) ∙ ap (◌++◌ (line_of (c ∷ s))) e ∙ append-nil _))
  | inr (x, xs, e) ↦ rw (ap is_empty e, readln)
]

-- What is left of a line that ends at no newline character is nothing.
rest_same : (s : Bytes) → rest_of s ≡ skip_newlines (rest_of s) → skip_newlines (rest_of s) ≡ []
unfolding rest_of skip_newlines
rest_same [] e = refl
rest_same (c ∷ s) e = elim (Bool-cases (is_newline c)) [
  | inl brk ↦
      let hit : c ∷ s ≡ skip_newlines s = rw brk at (rw brk at e) in
      absurd (omega (arith, ap length hit, length-skip_newlines-le s))
  | inr other ↦ rw other (rest_same s (rw other at e))
]

line_end :
    (s gap : Bytes)
    → rest_of s ≡ gap ++ skip_newlines (rest_of s)
    → (gap ≢ []) ⊎ (skip_newlines (rest_of s) ≡ [])
line_end s [] e = inr (rest_same s e)
line_end s (c ∷ gap) e = inl (λ none_left. cc)

-- Reading a line splits the input: the line, which holds no newline character; newline characters
-- only; and the new input, which does not begin with one. The line ends at a newline character or
-- is all there is: without newline characters behind it the new input is empty. Nothing is lost,
-- added or reordered, and the new input is shorter unless there was none.
pub readln-split :
    (input : Bytes)
    → let (line, left) = readln input in
      (gap : Bytes) × (input ≡ line ++ (gap ++ left))
      × NoNewline line
      × AllNewline gap
      × StartsLine left
      × ((gap ≢ []) ⊎ (left ≡ []))
      × ((input ≡ []) ⊎ (length left < length input))
readln-split input =
    let (gap, e, all, starts) = skip_newlines-split (rest_of input) in
    rw (readln_lem input) (
      gap,
      sym (line-append-rest input) ∙ ap (◌++◌ (line_of input)) e,
      line_of-NoNewline input,
      all,
      starts,
      line_end input gap e,
      shorter input,
    )
  where
    shorter : (s : Bytes) → (s ≡ []) ⊎ (length (skip_newlines (rest_of s)) < length s)
    shorter [] = inl refl
    shorter (c ∷ s) = inr (omega (arith, rest_shorter c s))

line_of-hit : (l s : Bytes) → NoNewline l → line_of (l ++ (b'\r' ∷ s)) ≡ l
unfolding line_of
line_of-hit [] s h = refl
line_of-hit (c ∷ l) s h = ground (arith, line_of-hit l s h.1)

rest_of-hit : (l s : Bytes) → NoNewline l → rest_of (l ++ (b'\r' ∷ s)) ≡ b'\r' ∷ s
unfolding rest_of
rest_of-hit [] s h = refl
rest_of-hit (c ∷ l) s h = ground (arith, rest_of-hit l s h.1)

skip_newlines-StartsLine : (s : Bytes) → StartsLine s → skip_newlines (newline ++ s) ≡ s
unfolding skip_newlines
skip_newlines-StartsLine [] h = refl
skip_newlines-StartsLine (c ∷ s) h = ground arith

readln_line : (l s : Bytes) → NoNewline l → StartsLine s → readln (l ++ (newline ++ s)) ≡ (l, s)
readln_line l s h k = rw (
  readln_lem (l ++ (newline ++ s)),
  line_of-hit l (b'\n' ∷ s) h,
  rest_of-hit l (b'\n' ∷ s) h,
  skip_newlines-StartsLine s k,
)

-- `n` calls of `readln`: the lines, and the input that is left.
unfoldable pub read_lines : ℕ → Bytes → List Bytes × Bytes
read_lines zero input = ([], input)
read_lines (suc n) input =
    let (line, left) = readln input in let (lines, last) = read_lines n left in (line ∷ lines, last)

-- A call of `writeln` for each line.
unfoldable pub write_lines : List Bytes → Buffered → Buffered
unfolding writeln
write_lines [] b = b
write_lines (l ∷ ls) b = write_lines ls (writeln l b)

abbrev lines_text : List Bytes → Bytes
lines_text [] = []
lines_text (l ∷ ls) = l ++ (newline ++ lines_text ls)

write_lines-lines_text :
    (ls : List Bytes) (b : Buffered) → (write_lines ls b).out_buffer ≡ b.out_buffer ++ lines_text ls
unfolding write_lines
write_lines-lines_text [] b = sym (append-nil b.out_buffer)
write_lines-lines_text (l ∷ ls) b = write_lines-lines_text ls (writeln l b) ∙ simp append_assoc

abbrev pub IsLine : Bytes → Type 0
IsLine l = (l ≢ []) × NoNewline l

lines_text-StartsLine : (ls : List Bytes) → All IsLine ls → StartsLine (lines_text ls)
lines_text-StartsLine [] h = tt
lines_text-StartsLine ([] ∷ ls) h = absurd (h.0.0 refl)
lines_text-StartsLine ((c ∷ l) ∷ ls) h = h.0.1.0

read_lines-lines_text :
    (ls : List Bytes) → All IsLine ls → read_lines (length ls) (lines_text ls) ≡ (ls, [])
unfolding read_lines
read_lines-lines_text [] h = refl
read_lines-lines_text (l ∷ ls) h =
    rw (readln_line l (lines_text ls) h.0.1 (lines_text-StartsLine ls h.1))
      (rw (read_lines-lines_text ls h.1))

-- Lines that are not empty and hold no newline character, written one by one by `writeln` on an
-- empty output buffer, are what as many calls of `readln` read from that text, and nothing is left.
pub read_lines-write_lines :
    (ls : List Bytes) (b : Buffered)
    → All IsLine ls
    → b.out_buffer ≡ []
    → read_lines (length ls) (write_lines ls b).out_buffer ≡ (ls, [])
read_lines-write_lines ls b h e = rw (write_lines-lines_text ls b, e) (read_lines-lines_text ls h)
