-- ===== src/Buffered/Channel/NextLine.antt =====
-- `readln` takes the next line of the stream.
use libcoda_net.Base.{true, false, [], ◌∷◌, ◌≡◌, ◌∙◌, sym, refl, arith, Bytes}
use libcoda_net.Buffered.Lines.{line_of, rest_of, skip_newlines, readln, readln_lem}
use libcoda_net.Buffered.Channel.{next_line}

skip_newlines-next_line : (s : Bytes) → next_line true s ≡ ([], skip_newlines s)
unfolding next_line skip_newlines
skip_newlines-next_line [] = refl
skip_newlines-next_line (c ∷ s) = ground (arith, skip_newlines-next_line s)

line_of-next_line : (s : Bytes) → next_line false s ≡ (line_of s, skip_newlines (rest_of s))
unfolding next_line line_of rest_of skip_newlines
line_of-next_line [] = refl
line_of-next_line (c ∷ s) = ground (arith, line_of-next_line s, skip_newlines-next_line s)

pub readln-next_line : (s : Bytes) → readln s ≡ next_line false s
readln-next_line s = readln_lem s ∙ sym (line_of-next_line s)
