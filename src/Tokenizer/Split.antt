-- ===== src/Tokenizer/Split.antt =====
-- Tokenizer::pretokenize (src/tokenizer/tokenizer.cpp): the text is cut into pieces from the left. The
-- index `i` of the source is kept where a range is pushed; else a string is what is left of the text.
pub mod Scans
pub mod Partition
use helios_glm53flash.Prelude.{
  ℕ, zero, suc, ◌+◌, ◌-◌, max, Bool, true, false, ◌&&◌, ◌||◌, not, List, [], ◌∷◌, length, drop,
  codes, ltb, leb, ◌==◌, if◌then◌else◌,
}
use helios_glm53flash.Tokenizer.Symbols.{dec_cp}
use helios_glm53flash.Tokenizer.Classes.{Ranges, is_letter, is_number, is_newline, is_space}

-- `cp_at`: the length of the first code point, and the code point.
unfoldable pub cp_at : List ℕ → ℕ × ℕ
cp_at [] = (0, 0)
cp_at (c ∷ s) = dec_cp c s

-- `while (k < n) { ...; if (!p(c)) break; k += l; }`, for at most `limit` code points: the bytes passed.
unfoldable pub run_at_most : ℕ → (ℕ → Bool) → List ℕ → ℕ
run_at_most zero p s = 0
run_at_most (suc limit) p [] = 0
run_at_most (suc limit) p (c ∷ s) =
    let l = (dec_cp c s).0 in
    let rest = run_at_most limit p (drop l (c ∷ s)) in if p (dec_cp c s).1 then l + rest else 0

-- The same without a bound: a code point has a byte at least.
unfoldable pub run : (ℕ → Bool) → List ℕ → ℕ
unfolding run_at_most
run p s = run_at_most (length s) p s

-- `tolower` of the C locale.
abbrev pub to_lower : ℕ → ℕ
to_lower c = if leb 0x41 c && leb c 0x5a then c + 32 else c

-- The loop over `k`: the text starts with `x`, its case set aside.
unfoldable pub starts_with : List ℕ → List ℕ → Bool
starts_with [] s = true
starts_with (x ∷ xs) [] = false
starts_with (x ∷ xs) (c ∷ s) = let rest = starts_with xs s in (to_lower c == x) && rest

-- `best` of the loop over the endings.
unfoldable pub longest_ending : List (List ℕ) → List ℕ → ℕ → ℕ
longest_ending [] s best = best
longest_ending (x ∷ xs) s best =
    longest_ending xs s (if starts_with x s && ltb best (length x) then length x else best)

abbrev pub endings : List (List ℕ)
endings = codes "s" ∷ codes "t" ∷ codes "re" ∷ codes "ve" ∷ codes "m" ∷ codes "ll" ∷ codes "d" ∷ []

-- The loop over white space: the bytes passed, `k`, and the end of its last line break, `last_nl`.
unfoldable pub spaces_from : ℕ → List ℕ → ℕ → ℕ → ℕ × ℕ
spaces_from zero s k last_nl = (k, last_nl)
spaces_from (suc fuel) [] k last_nl = (k, last_nl)
spaces_from (suc fuel) (c ∷ s) k last_nl =
    let l = (dec_cp c s).0 in
    let cp = (dec_cp c s).1 in
    let passed =
      spaces_from fuel (drop l (c ∷ s)) (k + l) (if is_newline cp then k + l else last_nl) in
    if is_space cp then passed else (k, last_nl)

unfoldable pub spaces : List ℕ → ℕ × ℕ
unfolding spaces_from
spaces s = spaces_from (length s) s 0 0

-- Rules 5 to 7: up to the last line break, or to the end of the text, or all white space but its last
-- byte, or all of it.
unfoldable pub space_piece : List ℕ → ℕ
unfolding spaces
space_piece s =
    let k = (spaces s).0 in
    let last_nl = (spaces s).1 in
    if ltb 0 last_nl then last_nl else if k == length s then k else if leb 2 k then k - 1 else k

module _ (t : Ranges) where
  -- What rule 4 collects.
  unfoldable pub is_mark : ℕ → Bool
  is_mark cp = not (is_space cp || (is_letter t cp || is_number t cp))

  -- Rule 4, and what follows it; `lead` is the blank before the marks.
  unfoldable pub mark_piece : List ℕ → ℕ
  unfolding cp_at
  mark_piece s =
      let lead = if (cp_at s).1 == 0x20 then 1 else 0 in
      let marks = run is_mark (drop lead s) in
      if ltb 0 marks
      then lead + marks + run is_newline (drop (lead + marks) s)
      else if is_space (cp_at s).1
      then space_piece s
      else (cp_at s).0

  -- The length of the first piece of a text.
  unfoldable pub next_piece : List ℕ → ℕ
  unfolding cp_at mark_piece
  next_piece s =
      let l0 = (cp_at s).0 in
      let c0 = (cp_at s).1 in
      let l1 = (cp_at (drop l0 s)).0 in
      let c1 = (cp_at (drop l0 s)).1 in
      let best = if c0 == 0x27 then longest_ending endings (drop l0 s) 0 else 0 in
      if ltb 0 best
      then l0 + best
      else if not (is_letter t c0)
          && (not (is_number t c0) && (not (is_newline c0) && (ltb 0 l1 && is_letter t c1)))
      then l0 + l1 + run (is_letter t) (drop (l0 + l1) s)
      else if is_letter t c0
      then l0 + run (is_letter t) (drop l0 s)
      else if is_number t c0
      then run_at_most 3 (is_number t) s
      else mark_piece s

  -- The outer loop from index `i` on; a piece has a byte at least, so as much fuel as bytes is enough.
  unfoldable pub pretokenize_from : ℕ → ℕ → List ℕ → List (ℕ × ℕ)
  unfolding next_piece
  pretokenize_from zero i s = []
  pretokenize_from (suc fuel) i [] = []
  pretokenize_from (suc fuel) i (c ∷ s) =
      let n = next_piece (c ∷ s) in (i, i + n) ∷ pretokenize_from fuel (i + n) (drop n (c ∷ s))

  unfoldable pub pretokenize : List ℕ → List (ℕ × ℕ)
  unfolding pretokenize_from
  pretokenize text = pretokenize_from (length text) 0 text
