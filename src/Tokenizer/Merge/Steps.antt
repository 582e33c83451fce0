-- ===== src/Tokenizer/Merge/Steps.antt =====
-- The merge loop refines byte-pair encoding, stated as steps: a pair of least rank, the first of them, is
-- joined, until no pair has a rank.
use helios_glm53flash.Prelude.{
  ℕ, zero, suc, ◌+◌, ◌≤◌, ◌<◌, ◌≡◌, ◌⊎◌, refl, sym, ap, ◌∙◌, inl, inr, List, [], ◌∷◌, Option, none,
  some, map, arith, length, ltb, Bool-cases, Option-cases,
}
use helios_glm53flash.Tokenizer.Symbols.{b2s}
use helios_glm53flash.Tokenizer.Vocab.{Tokenizer, find_in, merge_key}
use helios_glm53flash.Tokenizer.Merge.{
  no_rank, MergePick, nothing_picked, consider, merge_at, pick_from, merge_from, merged,
}

-- The rank of the pair at index `i`.
abbrev pub pair_rank : Tokenizer → List (List ℕ) → ℕ → Option ℕ
pair_rank tk [] i = none
pair_rank tk (a ∷ []) i = none
pair_rank tk (a ∷ b ∷ syms) zero = find_in tk.merge_rank (merge_key a b)
pair_rank tk (a ∷ b ∷ syms) (suc i) = pair_rank tk (b ∷ syms) i

-- The pair at `i` has rank `r`, no pair has a smaller one, and none before it has the same.
pub record Least (tk : Tokenizer) (syms : List (List ℕ)) (i r : ℕ) : Type 0 where
  pub ranked : pair_rank tk syms i ≡ some r
  pub least : (k q : ℕ) → pair_rank tk syms k ≡ some q → r ≤ q
  pub first : (k q : ℕ) → pair_rank tk syms k ≡ some q → k < i → r < q

-- Byte-pair encoding: a step joins the first pair of least rank.
pub data Merges (tk : Tokenizer) : List (List ℕ) → List (List ℕ) → Type 0 where
  stop : (syms : List (List ℕ)) → Merges tk syms syms
  join :
      (syms : List (List ℕ)) (i r : ℕ) (out : List (List ℕ))
      → Least tk syms i r
      → r < no_rank
      → Merges tk (merge_at i syms) out
      → Merges tk syms out

-- No pair can be joined.
abbrev pub Final : Tokenizer → List (List ℕ) → Type 0
Final tk syms = (k q : ℕ) → pair_rank tk syms k ≡ some q → no_rank ≤ q

module _ (tk : Tokenizer) where
  -- What the scan of the pairs finds.
  abbrev Picked : ℕ → List (List ℕ) → MergePick → MergePick → Type 0
  Picked i syms p q =
      ((q ≡ p) × ((k r : ℕ) → pair_rank tk syms k ≡ some r → p.best_rank ≤ r))
      ⊎ ((j : ℕ) × (r : ℕ) × (q ≡ record { best = some (i + j); best_rank = r })
          × (r < p.best_rank)
          × Least tk syms j r)

  some_eq : (a b : ℕ) → some a ≡ some b → a ≡ b
  some_eq a b e = cc

  -- A statement of every ranked pair, from the first pair and the others.
  pair_cases :
      (a b : List ℕ) (syms : List (List ℕ)) (P : ℕ → ℕ → Type 0)
      → ((q : ℕ) → find_in tk.merge_rank (merge_key a b) ≡ some q → P 0 q)
      → ((k q : ℕ) → pair_rank tk (b ∷ syms) k ≡ some q → P (suc k) q)
      → (k q : ℕ) → pair_rank tk (a ∷ b ∷ syms) k ≡ some q
      → P k q
  pair_cases a b syms P head tail zero q h = head q h
  pair_cases a b syms P head tail (suc k) q h = tail k q h

  next_index :
      (i j r : ℕ) (q : MergePick)
      → q ≡ record { best = some (suc i + j); best_rank = r }
      → q ≡ record { best = some (i + suc j); best_rank = r }
  next_index i j r q e = let same : i + suc j ≡ suc i + j = omega arith in rw same e

  -- One more pair before those that were scanned, when it is not picked.
  passed_pair :
      (i : ℕ) (a b : List ℕ) (syms : List (List ℕ)) (p q : MergePick)
      → ((r : ℕ) → find_in tk.merge_rank (merge_key a b) ≡ some r → p.best_rank ≤ r)
      → Picked (suc i) (b ∷ syms) p q
      → Picked i (a ∷ b ∷ syms) p q
  passed_pair i a b syms p q high (inl (same, none_less)) =
      inl (same, pair_cases a b syms (λ k r. p.best_rank ≤ r) high none_less)
  passed_pair i a b syms p q high (inr (j, r, e, less, l)) = inr (
    suc j,
    r,
    next_index i j r q e,
    less,
    record {
      ranked = l.ranked;
      least = pair_cases a b syms (λ k q'. r ≤ q') (λ q' h. omega (arith, high q' h)) l.least;
      first =
          pair_cases a b syms (λ k q'. k < suc j → r < q') (λ q' h lt. omega (arith, high q' h))
            (λ k q' h lt. l.first k q' h (omega arith));
    },
  )

  -- The same, when it is picked.
  taken_pair :
      (i : ℕ) (a b : List ℕ) (syms : List (List ℕ)) (p q : MergePick) (r : ℕ)
      → find_in tk.merge_rank (merge_key a b) ≡ some r
      → r < p.best_rank
      → Picked (suc i) (b ∷ syms) (record { best = some i; best_rank = r }) q
      → Picked i (a ∷ b ∷ syms) p q
  taken_pair i a b syms p q r ranked less (inl (same, none_less)) =
      let start : i + 0 ≡ i = omega arith in
      inr (
        0,
        r,
        rw start same,
        less,
        record {
          ranked = ranked;
          least =
              pair_cases a b syms (λ k q'. r ≤ q')
                (λ q' h. omega (arith, some_eq r q' (sym ranked ∙ h))) none_less;
          first = λ k q' h lt. absurd (omega arith);
        },
      )
  taken_pair i a b syms p q r ranked less (inr (j, r', e, less', l)) = inr (
    suc j,
    r',
    next_index i j r' q e,
    omega arith,
    record {
      ranked = l.ranked;
      least =
          pair_cases a b syms (λ k q'. r' ≤ q')
            (λ q' h. omega (arith, some_eq r q' (sym ranked ∙ h))) l.least;
      first =
          pair_cases a b syms (λ k q'. k < suc j → r' < q')
            (λ q' h lt. omega (arith, some_eq r q' (sym ranked ∙ h)))
            (λ k q' h lt. l.first k q' h (omega arith));
    },
  )

  pick_from-Picked :
      (i : ℕ) (syms : List (List ℕ)) (p : MergePick) → Picked i syms p (pick_from tk i syms p)
  unfolding pick_from consider
  pick_from-Picked i [] p = inl (refl, λ k r h. absurd (cc h))
  pick_from-Picked i (a ∷ []) p = inl (refl, λ k r h. absurd (cc h))
  pick_from-Picked i (a ∷ b ∷ syms) p =
      elim (Option-cases (find_in tk.merge_rank (merge_key a b))) [
        | inl unranked ↦ rw unranked (
            passed_pair i a b syms p _ (λ r h. absurd (cc (unranked, h)))
              (pick_from-Picked (suc i) (b ∷ syms) p))
        | inr (r, ranked) ↦ elim (Bool-cases (ltb r p.best_rank)) [
          | inr high ↦
              rw (ranked, high)
                (passed_pair i a b syms p _ (λ q h. ground (arith, some_eq r q (sym ranked ∙ h)))
                  (pick_from-Picked (suc i) (b ∷ syms) p))
          | inl low ↦
              rw (ranked, low)
                (taken_pair i a b syms p _ r ranked (ground arith)
                  (pick_from-Picked (suc i) (b ∷ syms) (record { best = some i; best_rank = r })))
        ]
      ]

  length-merge_at :
      (syms : List (List ℕ)) (i r : ℕ)
      → pair_rank tk syms i ≡ some r
      → suc (length (merge_at i syms)) ≡ length syms
  unfolding merge_at
  length-merge_at [] i r h = absurd (cc h)
  length-merge_at (a ∷ []) i r h = absurd (cc h)
  length-merge_at (a ∷ b ∷ syms) zero r h = refl
  length-merge_at (a ∷ b ∷ syms) (suc i) r h = ap suc (length-merge_at (b ∷ syms) i r h)

  short-Final : (syms : List (List ℕ)) → length syms ≤ 1 → Final tk syms
  short-Final [] h k q e = absurd (cc e)
  short-Final (a ∷ []) h k q e = absurd (cc e)
  short-Final (a ∷ b ∷ syms) h k q e = absurd (omega arith)

  merge_from-Merges :
      (fuel : ℕ) (syms : List (List ℕ))
      → length syms ≤ fuel
      → Merges tk syms (merge_from tk fuel syms) × Final tk (merge_from tk fuel syms)
  unfolding merge_from
  merge_from-Merges zero syms enough = (Merges.stop syms, short-Final syms (omega arith))
  merge_from-Merges (suc fuel) syms enough = elim (Bool-cases (ltb 1 (length syms))) [
    | inr short ↦ rw (merge_from, short) (Merges.stop syms, short-Final syms (ground arith))
    | inl long ↦ elim (pick_from-Picked 0 syms nothing_picked) [
      | inl (same, high) ↦
          let e : (pick_from tk 0 syms nothing_picked).best ≡ none = ap (λ p. p.best) same in
          rw (merge_from, long, e) (Merges.stop syms, high)
      | inr (j, r, same, less, l) ↦
          let e : (pick_from tk 0 syms nothing_picked).best ≡ some (0 + j) =
            ap (λ p. p.best) same in
          let z : 0 + j ≡ j = omega arith in
          let shorter = length-merge_at syms j r l.ranked in
          let (steps, final) = merge_from-Merges fuel (merge_at j syms) (omega arith) in
          rw (merge_from, long, e, z) (Merges.join syms j r _ l less steps, final)
    ]
  ]

  length-map : (piece : List ℕ) → length (map b2s piece) ≡ length piece
  length-map [] = refl
  length-map (b ∷ piece) = ap suc (length-map piece)

  -- The loop over the symbols of a piece makes steps of byte-pair encoding, each joining the first pair of
  -- the least rank, and ends where no pair has a rank below `INT32_MAX`.
  pub merged-Merges :
      (piece : List ℕ) → Merges tk (map b2s piece) (merged tk piece) × Final tk (merged tk piece)
  unfolding merged
  merged-Merges piece =
      merge_from-Merges (length piece) (map b2s piece) (omega (arith, length-map piece))
