-- ===== src/Tokenizer/Merge.antt =====
-- Tokenizer::bpe_piece (src/tokenizer/tokenizer.cpp) without its cache, which returns what was computed
-- for the same piece before: the symbols of a piece are merged in the order of the merge ranks.
pub mod Steps
use helios_glm53flash.Prelude.{
  ℕ, zero, suc, ◌+◌, ◌-◌, ◌^◌, Bool, true, false, List, [], ◌∷◌, ◌++◌, Option, none, some, map,
  length, take, drop, ltb, if◌then◌else◌,
}
use helios_glm53flash.Tokenizer.Symbols.{b2s, s2b, dec_cp}
use helios_glm53flash.Tokenizer.Vocab.{Tokenizer, find_in, merge_key}

-- INT32_MAX
abbrev pub no_rank : ℕ
no_rank = 2 ^ 31 - 1

-- `best` and `best_rank`; no best stands for -1.
pub record MergePick : Type 0 where
  pub best : Option ℕ
  pub best_rank : ℕ

abbrev pub nothing_picked : MergePick
nothing_picked = record { best = none; best_rank = no_rank }

unfoldable pub consider : ℕ → Option ℕ → MergePick → MergePick
consider i none p = p
consider i (some r) p = if ltb r p.best_rank then record { best = some i; best_rank = r } else p

-- `syms[best] += syms[best + 1]`, and the second is erased.
unfoldable pub merge_at : ℕ → List (List ℕ) → List (List ℕ)
merge_at i [] = []
merge_at zero (a ∷ []) = a ∷ []
merge_at zero (a ∷ b ∷ syms) = (a ++ b) ∷ syms
merge_at (suc i) (a ∷ syms) = a ∷ merge_at i syms

module _ (tk : Tokenizer) where
  -- The loop over the pairs, from index `i` on.
  unfoldable pub pick_from : ℕ → List (List ℕ) → MergePick → MergePick
  unfolding consider find_in
  pick_from i [] p = p
  pick_from i (a ∷ []) p = p
  pick_from i (a ∷ b ∷ syms) p =
      pick_from (suc i) (b ∷ syms) (consider i (find_in tk.merge_rank (merge_key a b)) p)

  -- The outer loop; a round makes the list shorter, so as much fuel as symbols is enough.
  unfoldable pub merge_from : ℕ → List (List ℕ) → List (List ℕ)
  unfolding pick_from merge_at
  merge_from zero syms = syms
  merge_from (suc fuel) syms = elim (ltb 1 (length syms)) [
    | false ↦ syms
    | true ↦ elim ((pick_from 0 syms nothing_picked).best) [
      | none ↦ syms
      | some i ↦ merge_from fuel (merge_at i syms)
    ]
  ]

  unfoldable pub merged : List ℕ → List (List ℕ)
  unfolding merge_from
  merged piece = merge_from (length piece) (map b2s piece)

  -- The id of one byte's symbol in a symbol without an id.
  unfoldable pub byte_id : List ℕ → List ℕ
  byte_id sub = elim (s2b sub) [
    | none ↦ []
    | some b ↦ elim (find_in tk.tok_to_id (b2s b)) [ none ↦ [] | some id ↦ id ∷ [] ]
  ]

  -- The byte fallback over what is left of a symbol; each round passes a byte.
  unfoldable pub fallback_from : ℕ → List ℕ → List ℕ
  unfolding byte_id
  fallback_from zero s = []
  fallback_from (suc fuel) [] = []
  fallback_from (suc fuel) (c ∷ s) =
      let l = (dec_cp c s).0 in byte_id (take l (c ∷ s)) ++ fallback_from fuel (drop l (c ∷ s))

  unfoldable pub symbol_ids : List ℕ → List ℕ
  unfolding find_in fallback_from
  symbol_ids sy = elim (find_in tk.tok_to_id sy) [
    | some id ↦ id ∷ []
    | none ↦ fallback_from (length sy) sy
  ]

  unfoldable pub all_ids : List (List ℕ) → List ℕ
  unfolding symbol_ids
  all_ids [] = []
  all_ids (sy ∷ syms) = symbol_ids sy ++ all_ids syms

  unfoldable pub bpe_piece : List ℕ → List ℕ
  unfolding all_ids merged
  bpe_piece piece = all_ids (merged piece)
