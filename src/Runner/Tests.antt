-- ===== src/Runner/Tests.antt =====
-- The runner at a small forward pass that is not the same however tokens are cut: it counts its chunks,
-- its recurrent state is the sum of the tokens and of that count, and a row is a token and that count.
use helios_glm53flash.Prelude.{
  ℕ, ◌-◌, zero, suc, ◌+◌, ◌≤◌, ◌<◌, ◌≡◌, refl, true, false, List, [], ◌∷◌, ◌++◌, Option, none, some,
  arith, length, take, get_elem?,
}
use helios_glm53flash.Forward.{Forward, Run, Shows, new_rows}
use helios_glm53flash.Runner.{
  Config, Session, Request, prefix_begin, prefill, generate, chunk_size, prepare, generate_loop,
  decode,
}
use helios_glm53flash.Prefix.{
  plan_at, replay_point, shared, newest, prefix_plan, prefix_discard_suffix,
  prefix_checkpoint_before,
}
use helios_glm53flash.Runner.Coherent.{Coherent, Snapshot}
use helios_glm53flash.Runner.Begin.{prefix_begin-Coherent}
use helios_glm53flash.Runner.Prefill.{prefill_total, chunk_size_bounds}
use helios_glm53flash.Runner.Generate.{Draws, generate-Draws}

abbrev sum_from : ℕ → List ℕ → ℕ
sum_from n [] = n
sum_from n (t ∷ tokens) = sum_from (n + t) tokens

abbrev token_at : List ℕ → ℕ → ℕ
token_at [] i = 0
token_at (t ∷ tokens) zero = t
token_at (t ∷ tokens) (suc i) = token_at tokens i

abbrev toy : Forward
toy = record {
  Rest = ℕ;
  Rec = ℕ;
  Row = ℕ × ℕ;
  Hidden = ℕ;
  zeroed = 0;
  chunk = λ chunks k rows tokens. record {
    rest = suc chunks;
    rec = sum_from (k + chunks) tokens;
    row = λ i. (token_at tokens i, chunks);
    hidden = sum_from (k + chunks) tokens;
  };
}

abbrev small : Config
small = record { cap = 12; max_chunk = 3; n_snaps = 2; snap_interval = 8 }

-- Seven tokens are resident, run in chunks of three, one and three, with a snapshot after the second;
-- a row of an older history is left.
abbrev warm : Session toy
warm = record {
  hist = 1 ∷ 2 ∷ 3 ∷ 4 ∷ 5 ∷ 6 ∷ 7 ∷ [];
  pos = 7;
  rest = 3;
  rec = 31;
  rows = (1, 0) ∷ (2, 0) ∷ (3, 0) ∷ (4, 1) ∷ (5, 2) ∷ (6, 2) ∷ (7, 2) ∷ (77, 0) ∷ [];
  hidden = 31;
  snap_pos = some 4 ∷ none ∷ [];
  snap_host = 11 ∷ 0 ∷ [];
  snap_next = 1;
  snap_last = 4;
  resume = 0;
  reuse_total = 0;
  prefix_reqs = 1;
}

four_run : Run toy 3 (1 ∷ 2 ∷ 3 ∷ 4 ∷ []) 11 ((1, 0) ∷ (2, 0) ∷ (3, 0) ∷ (4, 1) ∷ [])
unfolding new_rows
four_run =
    Run.next 1 (4 ∷ []) (Run.next 0 (1 ∷ 2 ∷ 3 ∷ []) Run.start (omega arith) (omega arith))
      (omega arith) (omega arith)

warm_run : Run toy 3 warm.hist 31 (take 7 warm.rows)
unfolding new_rows
warm_run = Run.next 2 (5 ∷ 6 ∷ 7 ∷ []) four_run (omega arith) (omega arith)

warm_snaps : (i p : ℕ) → get_elem? warm.snap_pos i ≡ some (some p) → Snapshot small warm i p
warm_snaps zero p e =
    let four : 4 ≡ p = ground arith in
    rw (← four)
      (record { behind = omega arith; aligned = refl; state = 11; stored = refl; run = four_run })
warm_snaps (suc zero) p e = absurd (ground arith)
warm_snaps (suc (suc i)) p e = absurd (cc)

warm-Coherent : Coherent small warm
warm-Coherent = record {
  at = refl;
  fits = omega arith;
  run = warm_run;
  ring = record { slots = refl; stored = refl; next = λ h. omega arith };
  snaps = warm_snaps;
}

abbrev counting : Request toy
counting = record {
  Sampler = ℕ;
  seeded = 0;
  sample = λ s hidden recent. (hidden + 100, s);
  eos_id = 0;
  ignore_eos = false;
  max_tokens = 3;
  on_token = λ out. true;
}

abbrev edited : List ℕ
edited = 1 ∷ 2 ∷ 3 ∷ 4 ∷ 5 ∷ 60 ∷ 7 ∷ 8 ∷ []

prefix_begin-Coherent_example :
    let t = prefix_begin small edited 100 warm in
    Coherent small t
    × (t.pos ≡ t.resume)
    × (t.hist ≡ take t.resume edited)
    × (t.resume ≤ 100)
    × (0 < length edited → t.resume < length edited)
prefix_begin-Coherent_example = prefix_begin-Coherent warm edited 100 warm-Coherent

prefill_total_example :
    (t : Session toy) × (prefill small edited warm ≡ some t)
    × Coherent small t
    × (t.hist ≡ warm.hist ++ take (small.cap - warm.pos) edited)
    × (0 < length edited → warm.pos < small.cap → Shows toy 3 t.hist t.hidden)
prefill_total_example = prefill_total small edited warm (omega arith) warm-Coherent

generate-Draws_example :
    (out : List ℕ) × (t : Session toy) × (generate small counting edited 100 warm ≡ some (out, t))
    × Draws small counting edited 3 [] 0 (take 12 edited) out
    × Coherent small t
generate-Draws_example =
    generate-Draws small counting edited 100 warm (omega arith) (omega arith) warm-Coherent

abbrev answer : Option (List ℕ × Session toy) → List ℕ
answer none = []
answer (some (out, t)) = out

counting_draws : answer (generate small counting edited 100 warm) ≡ 198 ∷ 401 ∷ 808 ∷ []
unfolding generate prepare generate_loop prefix_begin prefill decode prefix_plan
    prefix_discard_suffix prefix_checkpoint_before plan_at replay_point shared newest
counting_draws = refl

chunk_size_bounds_example :
    let n = chunk_size small 4 warm edited in (0 < n) × (n ≤ length edited) × (n ≤ small.max_chunk)
chunk_size_bounds_example = chunk_size_bounds small 4 warm edited (omega arith) (omega arith)
