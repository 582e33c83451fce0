-- ===== src/Tokenizer/Split/Scans.antt =====
-- The scans of the pre-tokenizer move forward and stay within the text.
use helios_glm53flash.Prelude.{
  ℕ, zero, suc, ◌+◌, ◌≤◌, ◌≡◌, inl, inr, Bool, true, List, [], ◌∷◌, arith, length, drop,
  length-drop, if◌then◌else◌, Bool-cases,
}
use helios_glm53flash.Tokenizer.Symbols.{dec_cp}
use helios_glm53flash.Tokenizer.Classes.{is_newline, is_space}
use helios_glm53flash.Tokenizer.Split.{
  cp_at, run_at_most, run, starts_with, longest_ending, spaces_from, spaces, space_piece,
}

-- A code point has a byte at least, and lies within the string.
pub dec_cp-within : (c : ℕ) (s : List ℕ) → (1 ≤ (dec_cp c s).0) × ((dec_cp c s).0 ≤ length (c ∷ s))
unfolding dec_cp
dec_cp-within c [] = (omega arith, omega arith)
dec_cp-within c (d ∷ []) = (ground arith, ground arith)
dec_cp-within c (d ∷ e ∷ []) = (ground arith, ground arith)
dec_cp-within c (d ∷ e ∷ f ∷ s) = (ground arith, ground arith)

pub cp_at-within : (s : List ℕ) → (cp_at s).0 ≤ length s
unfolding cp_at
cp_at-within [] = omega arith
cp_at-within (c ∷ s) = (dec_cp-within c s).1

pub run_at_most-within : (limit : ℕ) (p : ℕ → Bool) (s : List ℕ) → run_at_most limit p s ≤ length s
unfolding run_at_most
run_at_most-within zero p s = omega arith
run_at_most-within (suc limit) p [] = omega arith
run_at_most-within (suc limit) p (c ∷ s) =
    let l = (dec_cp c s).0 in
    ground
      (arith, run_at_most-within limit p (drop l (c ∷ s)), length-drop l (c ∷ s), dec_cp-within c s)

pub run-within : (p : ℕ → Bool) (s : List ℕ) → run p s ≤ length s
unfolding run
run-within p s = run_at_most-within (length s) p s

-- A run starts where the test holds.
pub run_at_most-starts :
    (limit : ℕ) (p : ℕ → Bool) (c : ℕ) (s : List ℕ)
    → p (dec_cp c s).1 ≡ true
    → 1 ≤ run_at_most (suc limit) p (c ∷ s)
unfolding run_at_most
run_at_most-starts limit p c s h = rw h (omega (arith, dec_cp-within c s))

starts_with-within : (x s : List ℕ) → starts_with x s ≡ true → length x ≤ length s
unfolding starts_with
starts_with-within [] s h = omega arith
starts_with-within (x ∷ xs) [] h = absurd (cc)
starts_with-within (x ∷ xs) (c ∷ s) h = ground (arith, starts_with-within xs s)

pub longest_ending-within :
    (xs : List (List ℕ)) (s : List ℕ) (best : ℕ)
    → best ≤ length s
    → longest_ending xs s best ≤ length s
unfolding longest_ending
longest_ending-within [] s best h = h
longest_ending-within (x ∷ xs) s best h =
    longest_ending-within xs s _ (ground (arith, starts_with-within x s))

spaces_from-within :
    (fuel : ℕ) (s : List ℕ) (k last_nl : ℕ)
    → last_nl ≤ k
    → let (k', last') = spaces_from fuel s k last_nl in
      (last' ≤ k') × (k ≤ k') × (k' ≤ k + length s)
unfolding spaces_from
spaces_from-within zero s k last_nl h = (h, omega arith, omega arith)
spaces_from-within (suc fuel) [] k last_nl h = (h, omega arith, omega arith)
spaces_from-within (suc fuel) (c ∷ s) k last_nl h = elim (Bool-cases (is_space (dec_cp c s).1)) [
  | inr stop ↦ rw stop (h, omega arith, omega arith)
  | inl space ↦
      let l = (dec_cp c s).0 in
      let last = if is_newline (dec_cp c s).1 then k + l else last_nl in
      let last_within : last ≤ k + l = ground arith in
      let (a, b, e) = spaces_from-within fuel (drop l (c ∷ s)) (k + l) last last_within in
      rw space (a, omega (arith, b), omega (arith, e, length-drop l (c ∷ s), dec_cp-within c s))
]

-- The white space that starts with white space has a byte.
pub spaces-within :
    (c : ℕ) (s : List ℕ)
    → is_space (dec_cp c s).1 ≡ true
    → ((spaces (c ∷ s)).1 ≤ (spaces (c ∷ s)).0)
      × (1 ≤ (spaces (c ∷ s)).0)
      × ((spaces (c ∷ s)).0 ≤ length (c ∷ s))
unfolding spaces spaces_from
spaces-within c s space =
    let l = (dec_cp c s).0 in
    let last = if is_newline (dec_cp c s).1 then 0 + l else 0 in
    let last_within : last ≤ 0 + l = ground arith in
    let (a, b, e) = spaces_from-within (length s) (drop l (c ∷ s)) (0 + l) last last_within in
    rw space (
      a,
      omega (arith, b, dec_cp-within c s),
      omega (arith, e, length-drop l (c ∷ s), dec_cp-within c s),
    )

-- The piece of rules 5 to 7 has a byte, and lies within the text.
pub space_piece-within :
    (c : ℕ) (s : List ℕ)
    → is_space (dec_cp c s).1 ≡ true
    → (1 ≤ space_piece (c ∷ s)) × (space_piece (c ∷ s) ≤ length (c ∷ s))
unfolding space_piece
space_piece-within c s space =
    let (a, b, e) = spaces-within c s space in (ground arith, ground arith)
