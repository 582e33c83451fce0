-- ===== src/Planes.antt =====
-- The plan of the KV and state cache, src/engine/cache.hpp and src/engine/cache.cpp: the sizes of its
-- planes and of the ring of raw indexer rows.
pub mod Layout
mod Tests
use helios_glm53flash.Prelude.{ℕ, zero, suc, ◌+◌, ◌*◌, ◌/◌, Bool, List, [], ◌∷◌, ltb, if◌then◌else◌}

-- `AttnKind` of src/core/model.hpp.
pub data AttnKind : Type 0 where
  kda : AttnKind
  mla : AttnKind

pub record CachePlan : Type 0 where
  pub cap : ℕ
  pub n_mla : ℕ
  pub n_kda : ℕ
  pub bytes : ℕ

-- Cache::raw_ring_rows, with `POOL` = 4.
unfoldable pub raw_ring_rows : ℕ → ℕ
raw_ring_rows max_chunk =
    let rows = if ltb 0 max_chunk then max_chunk + 4 else 512 + 4 in
    if ltb rows 16 then 16 else rows

-- The loop of Cache::plan that counts the layers of each kind.
unfoldable pub count_mla : List AttnKind → ℕ
count_mla [] = 0
count_mla (mla ∷ attn) = suc (count_mla attn)
count_mla (kda ∷ attn) = count_mla attn

unfoldable pub count_kda : List AttnKind → ℕ
count_kda [] = 0
count_kda (mla ∷ attn) = count_kda attn
count_kda (kda ∷ attn) = suc (count_kda attn)

-- Cache::plan
unfoldable pub plan : List AttnKind → ℕ → ℕ → CachePlan
plan attn cap max_chunk =
    let n_mla = count_mla attn in
    let n_kda = count_kda attn in
    let ring = raw_ring_rows max_chunk in
    record {
      cap = cap;
      n_mla = n_mla;
      n_kda = n_kda;
      bytes =
          n_mla * cap * 512 * 2
          + n_mla * ring * 256 * 2
          + n_mla * (cap / 4) * 128 * 2
          + n_kda * 24576 * 4 * 2
          + n_kda * 64 * 128 * 128 * 4;
    }

-- The planes that Cache::init allocates, in order.
unfoldable pub plane_sizes : List AttnKind → ℕ → ℕ → List ℕ
plane_sizes attn cap max_chunk =
    let p = plan attn cap max_chunk in
    p.n_mla * cap * 512 * 2
    ∷ p.n_mla * raw_ring_rows max_chunk * 256 * 2
    ∷ p.n_mla * (cap / 4) * 128 * 2
    ∷ p.n_kda * 24576 * 4 * 2
    ∷ p.n_kda * 64 * 128 * 128 * 4
    ∷ []
