-- ===== src/Tokenizer/Split/Partition.antt =====
-- The pieces of `pretokenize` follow one another without a gap, from the start of the text to its end.
use helios_glm53flash.Prelude.{
  subst, ℕ, zero, suc, ◌+◌, ◌≤◌, ◌<◌, ◌≡◌, refl, inl, inr, List, [], ◌∷◌, arith, length, drop,
  length-drop, ltb, ◌==◌, ◌&&◌, not, if◌then◌else◌, Bool-cases,
}
use helios_glm53flash.Tokenizer.Symbols.{dec_cp}
use helios_glm53flash.Tokenizer.Classes.{Ranges, is_letter, is_number, is_newline, is_space}
use helios_glm53flash.Tokenizer.Split.{
  cp_at, run, longest_ending, endings, is_mark, mark_piece, next_piece, pretokenize_from,
  pretokenize,
}
use helios_glm53flash.Tokenizer.Split.Scans.{
  dec_cp-within, cp_at-within, run_at_most-within, run-within, run_at_most-starts,
  longest_ending-within, space_piece-within,
}

-- Ranges that start at `i`, follow one another, hold a byte each, and end at `n`.
abbrev pub Tiles : ℕ → ℕ → List (ℕ × ℕ) → Type 0
Tiles i n [] = i ≡ n
Tiles i n ((a, b) ∷ ranges) = (a ≡ i) × (a < b) × Tiles b n ranges

module _ (t : Ranges) where
  -- A blank is one byte.
  blank_lead : (c : ℕ) (s : List ℕ) → (if (cp_at (c ∷ s)).1 == 0x20 then 1 else 0) ≤ length (c ∷ s)
  blank_lead c s = ground arith

  pub mark_piece-within :
      (c : ℕ) (s : List ℕ) → (1 ≤ mark_piece t (c ∷ s)) × (mark_piece t (c ∷ s) ≤ length (c ∷ s))
  unfolding mark_piece cp_at
  mark_piece-within c s =
      let lead = if (dec_cp c s).1 == 0x20 then 1 else 0 in
      let marks = run (is_mark t) (drop lead (c ∷ s)) in
      let lead_within : lead ≤ length (c ∷ s) = ground arith in
      let a = run-within (is_mark t) (drop lead (c ∷ s)) in
      let b = run-within is_newline (drop (lead + marks) (c ∷ s)) in
      let d = length-drop lead (c ∷ s) in
      let e = length-drop (lead + marks) (c ∷ s) in
      let w = dec_cp-within c s in
      elim (Bool-cases (ltb 0 marks)) [
        | inl some_marks ↦ rw some_marks (ground arith, ground arith)
        | inr no_marks ↦ rw no_marks (elim (Bool-cases (is_space (dec_cp c s).1)) [
          | inl space ↦ rw space (space_piece-within c s space)
          | inr other ↦ rw other w
        ])
      ]

  -- A piece has a byte, and lies within the text.
  pub next_piece-within :
      (c : ℕ) (s : List ℕ) → (1 ≤ next_piece t (c ∷ s)) × (next_piece t (c ∷ s) ≤ length (c ∷ s))
  unfolding next_piece cp_at
  next_piece-within c s =
      let l0 = (dec_cp c s).0 in
      let c0 = (dec_cp c s).1 in
      let l1 = (cp_at (drop l0 (c ∷ s))).0 in
      let c1 = (cp_at (drop l0 (c ∷ s))).1 in
      let best = if c0 == 0x27 then longest_ending endings (drop l0 (c ∷ s)) 0 else 0 in
      let leads =
        not (is_letter t c0)
        && (not (is_number t c0) && (not (is_newline c0) && (ltb 0 l1 && is_letter t c1))) in
      let w = dec_cp-within c s in
      let w1 = cp_at-within (drop l0 (c ∷ s)) in
      let d = length-drop l0 (c ∷ s) in
      elim (Bool-cases (ltb 0 best)) [
        | inl contraction ↦
            let e = longest_ending-within endings (drop l0 (c ∷ s)) 0 (omega arith) in
            rw contraction (ground arith, ground arith)
        | inr none ↦ rw none (elim (Bool-cases leads) [
          | inl word ↦
              let a = run-within (is_letter t) (drop (l0 + l1) (c ∷ s)) in
              let e = length-drop (l0 + l1) (c ∷ s) in rw word (omega arith, omega arith)
          | inr no_lead ↦ rw no_lead (elim (Bool-cases (is_letter t c0)) [
            | inl letter ↦
                let a = run-within (is_letter t) (drop l0 (c ∷ s)) in
                rw letter (omega arith, omega arith)
            | inr no_letter ↦ rw no_letter (elim (Bool-cases (is_number t c0)) [
              | inl digit ↦ rw digit (
                run_at_most-starts 2 (is_number t) c s digit,
                run_at_most-within 3 (is_number t) (c ∷ s),
              )
              | inr no_digit ↦ rw no_digit (mark_piece-within c s)
            ])
          ])
        ])
      ]

  pretokenize_from-Tiles :
      (fuel i : ℕ) (s : List ℕ)
      → length s ≤ fuel
      → Tiles i (i + length s) (pretokenize_from t fuel i s)
  unfolding pretokenize_from
  pretokenize_from-Tiles zero i [] enough = omega arith
  pretokenize_from-Tiles zero i (c ∷ s) enough = absurd (omega arith)
  pretokenize_from-Tiles (suc fuel) i [] enough = omega arith
  pretokenize_from-Tiles (suc fuel) i (c ∷ s) enough =
      let n = next_piece t (c ∷ s) in
      let (a, b) = next_piece-within c s in
      let d = length-drop n (c ∷ s) in
      let rest = pretokenize_from-Tiles fuel (i + n) (drop n (c ∷ s)) (omega arith) in
      let end : i + n + length (drop n (c ∷ s)) ≡ i + length (c ∷ s) = omega arith in
      (
        refl,
        omega arith,
        subst (λ m. Tiles (i + n) m (pretokenize_from t fuel (i + n) (drop n (c ∷ s)))) end rest,
      )

  -- Whatever the text and the tables, the ranges of `pretokenize` start at 0, follow one another, hold a
  -- byte each, and end at the end of the text.
  pub pretokenize-Tiles : (text : List ℕ) → Tiles 0 (length text) (pretokenize t text)
  unfolding pretokenize
  pretokenize-Tiles text =
      let z : 0 + length text ≡ length text = omega arith in
      subst (λ n. Tiles 0 n (pretokenize_from t (length text) 0 text)) z
        (pretokenize_from-Tiles (length text) 0 text (omega arith))
