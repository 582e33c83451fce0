-- ===== src/Prefix/Newest.antt =====
-- The scan for the newest usable snapshot.
use helios_glm53flash.Prelude.{
  ℕ, zero, suc, ◌+◌, ◌%◌, ◌≤◌, ◌≡◌, ◌⊎◌, inl, inr, List, [], ◌∷◌, Option, none, some, arith,
  get_elem?, ap, sym, Option-cases,
}
use helios_glm53flash.Prefix.{better, newest}

-- A snapshot that the scan may choose: aligned, and not beyond the limit.
pub record IsUsable (limit : ℕ) (slots : List (Option ℕ)) (k pos : ℕ) : Type 0 where
  pub stored : get_elem? slots k ≡ some (some pos)
  pub within : pos ≤ limit
  pub aligned : pos % 4 ≡ 0

-- The position of a choice, 0 for none.
abbrev pub position : Option (ℕ × ℕ) → ℕ
position none = 0
position (some (i, pos)) = pos

better-cases :
    (limit i p : ℕ) (best : Option (ℕ × ℕ)) (j pos : ℕ)
    → better limit i (some p) best ≡ some (j, pos)
    → (best ≡ some (j, pos)) ⊎ ((j ≡ i) × (pos ≡ p) × (p ≤ limit) × (p % 4 ≡ 0))
better-cases limit i p none j pos e = ground arith
better-cases limit i p (some (a, b)) j pos e = ground arith

-- A choice comes from the slots, or is the one that the scan started with.
newest-cases :
    (limit i : ℕ) (slots : List (Option ℕ)) (best : Option (ℕ × ℕ)) (j pos : ℕ)
    → newest limit i slots best ≡ some (j, pos)
    → (best ≡ some (j, pos)) ⊎ ((k : ℕ) × (j ≡ i + k) × IsUsable limit slots k pos)
unfolding newest
newest-cases limit i [] best j pos e = inl e
newest-cases limit i (none ∷ slots) best j pos e =
    elim (newest-cases limit (suc i) slots best j pos e) [
      | inl old ↦ inl old
      | inr (k, at, u) ↦
          inr (
            suc k,
            omega arith,
            record { stored = u.stored; within = u.within; aligned = u.aligned },
          )
    ]
newest-cases limit i (some p ∷ slots) best j pos e =
    elim (newest-cases limit (suc i) slots (better limit i (some p) best) j pos e) [
      | inl old ↦ elim (better-cases limit i p best j pos old) [
        | inl older ↦ inl older
        | inr (at, here, within, aligned) ↦ inr (
          0,
          omega arith,
          record {
            stored = ap (λ q. some (some q)) (sym here);
            within = omega arith;
            aligned = rw here aligned;
          },
        )
      ]
      | inr (k, at, u) ↦
          inr (
            suc k,
            omega arith,
            record { stored = u.stored; within = u.within; aligned = u.aligned },
          )
    ]

pub newest-IsUsable :
    (limit : ℕ) (slots : List (Option ℕ)) (j pos : ℕ)
    → newest limit 0 slots none ≡ some (j, pos)
    → IsUsable limit slots j pos
newest-IsUsable limit slots j pos e = elim (newest-cases limit 0 slots none j pos e) [
  | inl old ↦ absurd (cc)
  | inr (k, at, u) ↦ let same : j ≡ k = omega arith in rw same u
]

pub newest-le : (limit : ℕ) (slots : List (Option ℕ)) → position (newest limit 0 slots none) ≤ limit
newest-le limit slots = elim (Option-cases (newest limit 0 slots none)) [
  | inl e ↦ rw e (omega arith)
  | inr ((j, pos), e) ↦ rw e (newest-IsUsable limit slots j pos e).within
]

better-le :
    (limit i : ℕ) (slot : Option ℕ) (best : Option (ℕ × ℕ))
    → position best ≤ position (better limit i slot best)
better-le limit i none best = omega arith
better-le limit i (some p) none = omega arith
better-le limit i (some p) (some (a, b)) = ground arith

better-ge :
    (limit i p : ℕ) (best : Option (ℕ × ℕ))
    → p ≤ limit
    → p % 4 ≡ 0
    → p ≤ position (better limit i (some p) best)
better-ge limit i p none h a = ground arith
better-ge limit i p (some (j, b)) h a = ground arith

-- The scan never falls behind what it holds,
newest-ge_best :
    (limit i : ℕ) (slots : List (Option ℕ)) (best : Option (ℕ × ℕ))
    → position best ≤ position (newest limit i slots best)
unfolding newest
newest-ge_best limit i [] best = omega arith
newest-ge_best limit i (slot ∷ slots) best = omega (
  arith,
  better-le limit i slot best,
  newest-ge_best limit (suc i) slots (better limit i slot best),
)

-- and reaches every snapshot that it may choose.
pub newest-ge :
    (limit i : ℕ) (slots : List (Option ℕ)) (best : Option (ℕ × ℕ)) (k pos : ℕ)
    → IsUsable limit slots k pos
    → pos ≤ position (newest limit i slots best)
unfolding newest
newest-ge limit i [] best k pos u = absurd (cc (u.stored))
newest-ge limit i (slot ∷ slots) best zero pos u =
    let here : slot ≡ some pos = ground (arith, u.stored) in
    rw here (
      omega (
        arith,
        better-ge limit i pos best u.within u.aligned,
        newest-ge_best limit (suc i) slots (better limit i (some pos) best),
      ))
newest-ge limit i (slot ∷ slots) best (suc k) pos u =
    newest-ge limit (suc i) slots (better limit i slot best) k pos
      (record { stored = u.stored; within = u.within; aligned = u.aligned })
