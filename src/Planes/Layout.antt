-- ===== src/Planes/Layout.antt =====
-- The plan counts every layer once, and its bytes are those of the planes.
use native.Mathlib.Nat.{div-add-mod, mul-le-mul_left, mul-suc}
use helios_glm53flash.Prelude.{
  ◌%◌, ◌<◌, ◌≢◌, ℕ, suc, ◌+◌, ◌*◌, ◌/◌, ◌≤◌, ◌≡◌, refl, inl, inr, List, [], ◌∷◌, arith, length, ltb,
  Bool-cases,
}
use helios_glm53flash.Planes.{
  AttnKind, mla, kda, raw_ring_rows, count_mla, count_kda, plan, plane_sizes,
}

abbrev pub sum : List ℕ → ℕ
sum [] = 0
sum (n ∷ ns) = n + sum ns

counts-length : (attn : List AttnKind) → count_mla attn + count_kda attn ≡ length attn
unfolding count_mla count_kda
counts-length [] = refl
counts-length (mla ∷ attn) = omega (arith, counts-length attn)
counts-length (kda ∷ attn) = omega (arith, counts-length attn)

-- The plan counts each layer once, and its bytes are the sum of the planes that are allocated; the ring
-- of raw rows holds a chunk and the four rows of a pool.
pub plan-sum :
    (attn : List AttnKind) (cap max_chunk : ℕ)
    → let p = plan attn cap max_chunk in
      (p.n_mla + p.n_kda ≡ length attn)
      × (p.bytes ≡ sum (plane_sizes attn cap max_chunk))
      × (max_chunk + 4 ≤ raw_ring_rows max_chunk)
unfolding plan plane_sizes raw_ring_rows
plan-sum attn cap max_chunk = (counts-length attn, omega arith, ground arith)

-- Two positions less than the ring apart have different rows of it.
distinct_rows : (ring p q : ℕ) → p < q → q < p + ring → p % ring ≢ q % ring
distinct_rows ring p q before near same =
    let a = p / ring in
    let b = q / ring in
    let whole_p : ring * a + p % ring ≡ p = div-add-mod p ring in
    let whole_q : ring * b + q % ring ≡ q = div-add-mod q ring in
    elim (Bool-cases (ltb a b)) [
      | inl less ↦
          let step : ring * suc a ≤ ring * b = mul-le-mul_left ring (ground arith) in
          let next : ring * suc a ≡ ring * a + ring = mul-suc ring a in
          omega (arith, whole_p, whole_q, step, next)
      | inr more ↦
          let step : ring * b ≤ ring * a = mul-le-mul_left ring (ground arith) in
          omega (arith, whole_p, whole_q, step)
    ]

-- The rows of the ring that a call of at most `max_chunk` tokens writes, and the three before them, are
-- all different.
pub raw_ring_rows_lem :
    (max_chunk start p q : ℕ)
    → start ≤ p + 3
    → p < q
    → q < start + max_chunk
    → p % raw_ring_rows max_chunk ≢ q % raw_ring_rows max_chunk
raw_ring_rows_lem max_chunk start p q low before high =
    distinct_rows (raw_ring_rows max_chunk) p q before (omega (arith, (plan-sum [] 0 max_chunk).2))
