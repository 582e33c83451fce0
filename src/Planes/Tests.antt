-- ===== src/Planes/Tests.antt =====
-- The plan at three layers.
use helios_glm53flash.Prelude.{arith, ◌%◌, ◌≢◌, ◌+◌, ◌≤◌, ◌≡◌, List, [], ◌∷◌, length}
use helios_glm53flash.Planes.{AttnKind, mla, kda, raw_ring_rows, plan, plane_sizes}
use helios_glm53flash.Planes.Layout.{sum, plan-sum, raw_ring_rows_lem}

abbrev three_layers : List AttnKind
three_layers = kda ∷ kda ∷ mla ∷ []

plan-sum_example :
    let p = plan three_layers 8192 256 in
    (p.n_mla + p.n_kda ≡ length three_layers)
    × (p.bytes ≡ sum (plane_sizes three_layers 8192 256))
    × (◌≤◌ 260 (raw_ring_rows 256))
plan-sum_example = plan-sum three_layers 8192 256

raw_ring_rows_example : 97 % raw_ring_rows 256 ≢ 355 % raw_ring_rows 256
raw_ring_rows_example = raw_ring_rows_lem 256 100 97 355 (omega arith) (omega arith) (omega arith)
