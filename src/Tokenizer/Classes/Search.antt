-- ===== src/Tokenizer/Classes/Search.antt =====
-- `in_ranges` finds a code point in a sorted table exactly where a range of it holds the code point.
use helios_glm53flash.Prelude.{
  ℕ, zero, suc, ◌+◌, ◌-◌, ◌/◌, ◌≤◌, ◌<◌, ◌≡◌, ◌⊎◌, subst, ◌↔◌, refl, ap, inl, inr, true, List, some,
  arith, length, get_elem?, get_elem?-lt, get_elem?_of_lt, ltb, Bool-cases,
}
use helios_glm53flash.Tokenizer.Classes.{URange, in_ranges_from, in_ranges}

-- The ranges are in order and do not overlap.
abbrev pub Sorted : List URange → Type 0
Sorted r =
    (i j : ℕ) (u v : URange)
    → i < j
    → get_elem? r i ≡ some u
    → get_elem? r j ≡ some v
    → (u.lo ≤ u.hi) × (u.hi < v.lo) × (v.lo ≤ v.hi)

-- Range `i` of the table holds the code point.
abbrev pub HoldsAt : ℕ → List URange → ℕ → Type 0
HoldsAt cp r i = (u : URange) × (get_elem? r i ≡ some u) × (u.lo ≤ cp) × (cp ≤ u.hi)

ℕ_trichotomy : (a b : ℕ) → (a < b) ⊎ ((a ≡ b) ⊎ (b < a))
ℕ_trichotomy a b = ground arith

same_range :
    (r : List URange) (i : ℕ) (u v : URange)
    → get_elem? r i ≡ some u
    → get_elem? r i ≡ some v
    → u ≡ v
same_range r i u v e f = cc (e, f)

-- What the two tests of a round exclude.
below_mid :
    (cp : ℕ) (r : List URange) (mid : ℕ) (u : URange)
    → Sorted r
    → get_elem? r mid ≡ some u
    → ltb cp u.lo ≡ true
    → (i : ℕ) → HoldsAt cp r i
    → i < mid
below_mid cp r mid u sorted at low i (v, there, lo, hi) = elim (ℕ_trichotomy i mid) [
  | inl before ↦ before
  | inr (inl same) ↦
      let e = same_range r mid u v at (subst (λ k. get_elem? r k ≡ some v) same there) in
      let lows = ap (λ w. w.lo) e in absurd (ground arith)
  | inr (inr after) ↦ let (a, b, c) = sorted mid i u v after at there in absurd (ground arith)
]

above_mid :
    (cp : ℕ) (r : List URange) (mid : ℕ) (u : URange)
    → Sorted r
    → get_elem? r mid ≡ some u
    → ltb u.hi cp ≡ true
    → (i : ℕ) → HoldsAt cp r i
    → mid < i
above_mid cp r mid u sorted at high i (v, there, lo, hi) = elim (ℕ_trichotomy i mid) [
  | inl before ↦ let (a, b, c) = sorted i mid v u before there at in absurd (ground arith)
  | inr (inl same) ↦
      let e = same_range r mid u v at (subst (λ k. get_elem? r k ≡ some v) same there) in
      let highs = ap (λ w. w.hi) e in absurd (ground arith)
  | inr (inr after) ↦ after
]

-- The loop, when no range outside `lo` to `past` holds the code point.
in_ranges_from_lem :
    (fuel cp : ℕ) (r : List URange) (lo past : ℕ)
    → Sorted r
    → past ≤ length r
    → past - lo ≤ fuel
    → ((i : ℕ) → HoldsAt cp r i → (lo ≤ i) × (i < past))
    → (in_ranges_from fuel cp r lo past ≡ true) ↔ ((i : ℕ) × HoldsAt cp r i)
unfolding in_ranges_from
in_ranges_from_lem zero cp r lo past sorted within enough inside =
    ((λ e. absurd (cc e)), (λ (i, h). let (a, b) = inside i h in absurd (omega arith)))
in_ranges_from_lem (suc fuel) cp r lo past sorted within enough inside =
    elim (Bool-cases (ltb lo past)) [
      | inr empty ↦
          rw (in_ranges_from, empty)
            ((λ e. absurd (cc e)), (λ (i, h). let (a, b) = inside i h in absurd (ground arith)))
      | inl left ↦
          let mid = (lo + past - 1) / 2 in
          let above : (lo ≤ mid) × (mid < past) = (ground arith, ground arith) in
          let (u, at) = get_elem?_of_lt r mid (omega (arith, above.1, within)) in
          rw (in_ranges_from, left, at)
            (elim (Bool-cases (ltb cp u.lo)) [
              | inl low ↦ rw (low) (
                  in_ranges_from_lem fuel cp r lo mid sorted (omega (arith, above.1))
                    (omega (arith, above.1))
                    (λ i h. ((inside i h).0, below_mid cp r mid u sorted at low i h)))
              | inr reaches ↦ rw reaches (elim (Bool-cases (ltb u.hi cp)) [
                | inl high ↦ rw high (
                    in_ranges_from_lem fuel cp r (suc mid) past sorted within
                      (omega (arith, above.0))
                      (λ i h. (above_mid cp r mid u sorted at high i h, (inside i h).1)))
                | inr holds ↦
                    rw holds ((λ e. (mid, (u, at, ground arith, ground arith))), (λ h. refl))
              ])
            ])
    ]

-- In a table in order, the search finds exactly the code points that some range holds.
pub in_ranges-HoldsAt :
    (cp : ℕ) (r : List URange) → Sorted r → (in_ranges cp r ≡ true) ↔ ((i : ℕ) × HoldsAt cp r i)
unfolding in_ranges
in_ranges-HoldsAt cp r sorted =
    in_ranges_from_lem (length r) cp r 0 (length r) sorted (omega arith) (omega arith)
      (λ i (u, at, a, b). (omega arith, get_elem?-lt r i at))
