-- ===== src/Experts/Layout.antt =====
-- The pieces of an expert do not overlap, lie within the stride, and the stride keeps experts aligned.
use helios_glm53flash.Prelude.{
  ◌>>=◌, ℕ, zero, suc, ◌+◌, ◌%◌, ◌≤◌, ◌≡◌, refl, sym, ap, ◌∙◌, Bool, true, false, List, [], ◌∷◌,
  ◌++◌, Option, none, some, arith, length, length-append, ◌==◌, if◌then◌else◌,
}
use helios_glm53flash.Experts.{
  codes, ShardSet, ExpertLayout, check_projection, check_expert, check_experts, align64, place,
  no_experts, expert_layout, trellis_bits, base_name,
}
use std.Path.{transport}

-- The pieces follow one another from `low` to `high`, with gaps at most.
abbrev pub Laid : ℕ → ℕ → List ℕ → List ℕ → Type 0
Laid low high [] [] = low ≤ high
Laid low high [] (o ∷ off) = ⊥
Laid low high (p ∷ piece) [] = ⊥
Laid low high (p ∷ piece) (o ∷ off) = (low ≤ o) × Laid (o + p) high piece off

Laid-lower :
    (low low' high : ℕ) (piece off : List ℕ)
    → low ≤ low'
    → Laid low' high piece off
    → Laid low high piece off
Laid-lower low low' high [] [] h k = omega arith
Laid-lower low low' high [] (o ∷ off) h k = k
Laid-lower low low' high (p ∷ piece) [] h k = k
Laid-lower low low' high (p ∷ piece) (o ∷ off) h (k, ks) = (omega arith, ks)

place-Laid :
    (q stride : ℕ) (piece : List ℕ)
    → Laid stride (place q stride piece).1 piece (place q stride piece).0
unfolding place
place-Laid q stride [] = omega arith
place-Laid q stride (p ∷ piece) =
    let next = if q % 4 == 3 then align64 (stride + p) else stride + p in
    let up : stride + p ≤ next = ground arith in
    (
      omega arith,
      Laid-lower (stride + p) next (place (suc q) next piece).1 piece (place (suc q) next piece).0
          up (place-Laid (suc q) next piece),
    )

place-aligned :
    (q stride : ℕ) (piece : List ℕ)
    → (q + length piece) % 4 ≡ 0
    → (q % 4 ≡ 0 → stride % 64 ≡ 0)
    → (place q stride piece).1 % 64 ≡ 0
unfolding place
place-aligned q stride [] whole at = at (omega arith)
place-aligned q stride (p ∷ piece) whole at =
    place-aligned (suc q) (if q % 4 == 3 then align64 (stride + p) else stride + p) piece
      (omega arith) (λ h. ground arith)

-- What a computation that may fail returned, it returned after its first part.
bound {ℓ κ μ} :
    {A : Type ℓ} {B : Type κ} {P : Type μ} (o : Option A) {f : A → Option B} {b : B}
    → (o >>= f) ≡ some b
    → ((a : A) → o ≡ some a → f a ≡ some b → P)
    → P
bound none e k = absurd (cc e)
bound (some a) e k = k a refl e

-- A guard that let a result through let this one through.
kept {ℓ} :
    {A : Type ℓ} (b : Bool) {o : Option A} {y : A} → (if b then o else none) ≡ some y → o ≡ some y
kept true h = h
kept false h = absurd (cc h)

some-same {ℓ} : {A : Type ℓ} {x y : A} → some x ≡ some y → x ≡ y
some-same h = cc

projection_pieces :
    (shards : ShardSet) (rows cols p : ℕ) (base : List ℕ) (r : ℕ × List ℕ)
    → check_projection shards rows cols p base ≡ some r
    → length r.1 ≡ 4
unfolding check_projection
projection_pieces shards rows cols p base r e =
    bound (shards.find (base ++ codes ".trellis")) e (λ t0 _ e0.
      bound (shards.find (base ++ codes ".suh")) e0 (λ t1 _ e1.
        bound (shards.find (base ++ codes ".svh")) e1 (λ t2 _ e2.
          bound (shards.find (base ++ codes ".mul1")) e2 (λ t3 _ e3.
            bound (trellis_bits rows cols t0.shape) e3
              (λ bits _ e4. sym (ap (λ s. length s.1) (some-same (kept _ e4))))))))

expert_pieces :
    (shards : ShardSet) (layer hidden intermediate e : ℕ) (r : List ℕ × List ℕ)
    → check_expert shards layer hidden intermediate e ≡ some r
    → length r.0 ≡ 12
unfolding check_expert
expert_pieces shards layer hidden intermediate e r found =
    bound (check_projection shards hidden intermediate 0 (base_name layer e 0)) found (λ gate g h0.
      bound (check_projection shards hidden intermediate 1 (base_name layer e 1)) h0 (λ up u h1.
        bound (check_projection shards intermediate hidden 2 (base_name layer e 2)) h1
          (λ down d h2. sym (ap (λ s. length s.0) (some-same h2)) ∙ joined gate up down g u d)))
  where
    joined :
        (gate up down : ℕ × List ℕ)
        → check_projection shards hidden intermediate 0 (base_name layer e 0) ≡ some gate
        → check_projection shards hidden intermediate 1 (base_name layer e 1) ≡ some up
        → check_projection shards intermediate hidden 2 (base_name layer e 2) ≡ some down
        → length (gate.1 ++ (up.1 ++ down.1)) ≡ 12
    joined gate up down g u d =
        let gs = projection_pieces shards hidden intermediate 0 (base_name layer e 0) gate g in
        let us = projection_pieces shards hidden intermediate 1 (base_name layer e 1) up u in
        let ds = projection_pieces shards intermediate hidden 2 (base_name layer e 2) down d in
        let outer = length-append gate.1 (up.1 ++ down.1) in
        let inner = length-append up.1 down.1 in omega arith

experts_pieces :
    (check : ℕ → Option (List ℕ × List ℕ))
    → ((e : ℕ) (r : List ℕ × List ℕ) → check e ≡ some r → length r.0 ≡ 12)
    → (n e : ℕ) (found r : List ℕ × List ℕ) → length found.0 ≡ 12
    → check_experts check n e found ≡ some r
    → length r.0 ≡ 12
unfolding check_experts
experts_pieces check each zero e found r twelve h =
    let same : found ≡ r = cc in sym (ap (λ s. length s.0) same) ∙ twelve
experts_pieces check each (suc n) e found r twelve h =
    bound (check e) h (λ a at k. experts_pieces check each n (suc e) a r (each e a at) (kept _ k))

-- If the tensors of a layer's experts are accepted, the twelve pieces of an expert lie one after another
-- from 0 to the stride without overlap, and the stride is a multiple of 64.
pub expert_layout-Laid :
    (shards : ShardSet) (layer experts hidden intermediate : ℕ) (l : ExpertLayout)
    → expert_layout shards layer experts hidden intermediate ≡ some l
    → Laid 0 l.stride l.piece l.off × (l.stride % 64 ≡ 0)
unfolding expert_layout
expert_layout-Laid shards layer experts hidden intermediate l h =
    bound (check_experts (check_expert shards layer hidden intermediate) experts 0 no_experts) h
      (λ found at k. transport (λ i. Claim (some-same k i)) (laid found at))
  where
    Claim : ExpertLayout → Type 0
    Claim m = Laid 0 m.stride m.piece m.off × (m.stride % 64 ≡ 0)

    laid :
        (found : List ℕ × List ℕ)
        → check_experts (check_expert shards layer hidden intermediate) experts 0 no_experts
          ≡ some found
        → Laid 0 (place 0 0 found.0).1 found.0 (place 0 0 found.0).0
          × ((place 0 0 found.0).1 % 64 ≡ 0)
    laid found at =
        let twelve =
          experts_pieces (check_expert shards layer hidden intermediate)
            (expert_pieces shards layer hidden intermediate) experts 0 no_experts found refl at in
        (place-Laid 0 0 found.0, place-aligned 0 0 found.0 (omega arith) (λ z. refl))
