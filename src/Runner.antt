-- ===== src/Runner.antt =====
-- The runner's session, src/engine/runner.cpp: the resident token history, the cache planes, the
-- recurrent state and its ring of snapshots, with the prefix cache, chunked prefill, decode and the
-- generation loop over them (the text-only path: no image embeddings; chunk-major prefill).
-- A position is a number; -1, an empty snapshot slot, is `none`.
pub mod Coherent
pub mod Append
pub mod Begin
pub mod Prefill
pub mod Generate
mod Tests
use helios_glm53flash.Prelude.{
  ℕ, zero, suc, ◌+◌, ◌-◌, ◌*◌, ◌/◌, ◌%◌, min, max, Bool, true, false, ◌&&◌, ◌||◌, not, List, [],
  ◌∷◌, ◌++◌, Option, none, some, length, take, drop, replicate, set, get_elem?, ltb, leb, ◌==◌,
  if◌then◌else◌, map,
}
use helios_glm53flash.Prefix.{
  PrefixPlan, pool_tokens, prefix_plan, prefix_discard_suffix, prefix_checkpoint_before,
}
use helios_glm53flash.Forward.{Forward, Out, new_rows}

-- What stays fixed while the runner serves: the context capacity, the prefill chunk, and the number
-- and spacing of the snapshots.
pub record Config : Type 0 where
  pub cap : ℕ
  pub max_chunk : ℕ
  pub n_snaps : ℕ
  pub snap_interval : ℕ

pub record Session (f : Forward) : Type 0 where
  pub hist : List ℕ
  pub pos : ℕ
  -- What the forward pass reads besides the planes and the recurrent state.
  pub rest : f.Rest
  pub rec : f.Rec
  pub rows : List f.Row
  -- The last row of `c_->xh`, and the logits that `final_head` makes of it.
  pub hidden : f.Hidden
  pub snap_pos : List (Option ℕ)
  pub snap_host : List f.Rec
  pub snap_next : ℕ
  pub snap_last : ℕ
  pub resume : ℕ
  pub reuse_total : ℕ
  pub prefix_reqs : ℕ

-- `std::vector::resize`.
abbrev pub resize : ℕ → List ℕ → List ℕ
resize n xs = take n xs ++ replicate (n - length xs) 0

-- A chunk ends early at a checkpoint that lies strictly inside it.
abbrev pub cut_at : ℕ → ℕ → ℕ → ℕ
cut_at pos checkpoint n =
    if ltb pos checkpoint && ltb checkpoint (pos + n) then checkpoint - pos else n

-- The sampler and the request's hooks: a token and a new sampler state from the last hidden row and
-- the recent tokens; `on_token` sees the tokens produced so far, and may stop.
pub record Request (f : Forward) : Type 1 where
  pub Sampler : Type 0
  pub seeded : Sampler
  pub sample : Sampler → f.Hidden → List ℕ → ℕ × Sampler
  pub eos_id : ℕ
  pub ignore_eos : Bool
  pub max_tokens : ℕ
  pub on_token : List ℕ → Bool

module _ {f : Forward} (c : Config) where
  -- Runner::reset
  unfoldable pub reset : Session f → Session f
  reset s = record s {
    snap_pos = replicate (length s.snap_pos) none;
    snap_next = 0;
    snap_last = 0;
    pos = 0;
    hist = [];
    rec = f.zeroed;
  }

  -- Runner::snap_capture
  unfoldable pub snap_capture : ℕ → Session f → Session f
  snap_capture pos s = if (c.n_snaps == 0) || not (pos % pool_tokens == 0) then s else record s {
    snap_host = set s.snap_host s.snap_next s.rec;
    snap_pos = set s.snap_pos s.snap_next (some pos);
    snap_last = max s.snap_last pos;
    snap_next = (s.snap_next + 1) % c.n_snaps;
  }

  -- Runner::snap_restore
  unfoldable pub snap_restore : ℕ → Session f → Session f
  snap_restore slot s = elim (get_elem? s.snap_host slot) [
    | none ↦ s
    | some k ↦ record s { rec = k }
  ]

  -- The three ways to reach the resume position, as the plan says.
  unfoldable pub wind_back : PrefixPlan → Session f → Session f
  unfolding reset snap_restore
  wind_back plan s = if plan.extend then record s { resume = plan.resume } else elim plan.slot [
    | none ↦ record (reset s) { resume = 0 }
    | some slot ↦ record (snap_restore slot s) { resume = plan.resume }
  ]

  -- `if (resume_ > c_->cap()) { reset(); resume_ = 0; }`
  unfoldable pub within_cap : Session f → Session f
  unfolding reset
  within_cap s = if ltb c.cap s.resume then record (reset s) { resume = 0 } else s

  -- Drop the suffix that the resume discards, and count the request.
  unfoldable pub settle : Session f → Session f
  settle s =
      let kept = prefix_discard_suffix s.snap_pos s.resume in
      record s {
        snap_pos = kept.0;
        snap_last = kept.1;
        pos = s.resume;
        hist = resize s.resume s.hist;
        prefix_reqs = s.prefix_reqs + 1;
        reuse_total = s.reuse_total + s.resume;
      }

  -- Runner::prefix_begin; the position returned is the new `resume`.
  unfoldable pub prefix_begin : List ℕ → ℕ → Session f → Session f
  unfolding wind_back within_cap settle
  prefix_begin prompt reuse_limit s =
      settle (within_cap (wind_back (prefix_plan s.hist s.pos prompt s.snap_pos reuse_limit) s))

  -- Runner::run_chunk of `tokens` at the current position. Rows past it stay as they were.
  unfoldable pub run_chunk : List ℕ → Session f → Session f
  unfolding new_rows
  run_chunk tokens s =
      if leb c.cap s.pos
      then s
      else let fitting =
          if ltb c.cap (s.pos + length tokens) then take (c.cap - s.pos) tokens else tokens in
        let out = f.chunk s.rest s.rec (take s.pos s.rows) fitting in
        record s {
          rest = out.rest;
          rec = out.rec;
          rows =
              take s.pos s.rows
              ++ (new_rows (length fitting) out.row ++ drop (s.pos + length fitting) s.rows);
          hidden = out.hidden;
        }

  -- The tokens that the next round of prefill takes.
  unfoldable pub chunk_size : ℕ → Session f → List ℕ → ℕ
  chunk_size tail s ids =
      let n = min c.max_chunk (length ids) in
      let interval =
        (s.snap_last + c.snap_interval + pool_tokens - 1) / pool_tokens * pool_tokens in
      if c.n_snaps == 0 then n else cut_at s.pos tail (cut_at s.pos interval n)

  -- One round of prefill: run a chunk, note its tokens, and perhaps take a snapshot.
  unfoldable pub prefill_round : ℕ → List ℕ → Session f → Session f
  unfolding run_chunk snap_capture
  prefill_round tail chunk s =
      let t = run_chunk chunk s in
      let u = record t { pos = s.pos + length chunk; hist = s.hist ++ chunk } in
      if not (c.n_snaps == 0) && (leb (u.snap_last + c.snap_interval) u.pos || (u.pos == tail))
      then snap_capture u.pos u
      else u

  -- `while (done0 < n)` over the tokens left; `none` if the fuel runs out.
  unfoldable pub prefill_loop : ℕ → ℕ → List ℕ → Session f → Option (Session f)
  unfolding chunk_size prefill_round
  prefill_loop fuel tail [] s = some s
  prefill_loop zero tail (t ∷ ids) s = none
  prefill_loop (suc fuel) tail (t ∷ ids) s =
      let n = chunk_size tail s (t ∷ ids) in
      prefill_loop fuel tail (drop n (t ∷ ids)) (prefill_round tail (take n (t ∷ ids)) s)

  -- Runner::prefill. Each round takes a token, so as much fuel as tokens is enough.
  unfoldable pub prefill : List ℕ → Session f → Option (Session f)
  unfolding prefill_loop
  prefill ids s =
      let t = record s { hist = resize s.pos s.hist } in
      if leb c.cap s.pos
      then some t
      else let fitting = if ltb c.cap (s.pos + length ids) then take (c.cap - s.pos) ids else ids in
        prefill_loop (length fitting) (prefix_checkpoint_before (s.pos + length fitting)) fitting t

  -- Runner::decode
  unfoldable pub decode : List ℕ → Session f → Session f
  unfolding run_chunk
  decode ids s =
      let t = run_chunk ids s in record t { pos = s.pos + length ids; hist = s.hist ++ ids }

  module _ (r : Request f) (prompt : List ℕ) where
    -- The token loop of Runner::generate, with the rounds left and the tokens produced.
    unfoldable pub generate_loop : ℕ → List ℕ → r.Sampler → Session f → List ℕ × Session f
    generate_loop zero out smp s = (out, s)
    generate_loop (suc rounds) out smp s =
        let drawn = r.sample smp s.hidden (prompt ++ out) in
        let out' = out ++ drawn.0 ∷ [] in
        let rest = generate_loop rounds out' drawn.1 (decode (drawn.0 ∷ []) s) in
        if leb c.cap s.pos
        then (out, s)
        else if (drawn.0 == r.eos_id) && not r.ignore_eos
        then (out, s)
        else if not (r.on_token out') || leb r.max_tokens (length out')
        then (out', s)
        else rest

    -- The part of Runner::generate up to the token loop.
    unfoldable pub prepare : ℕ → Session f → Option (Session f)
    prepare reuse_limit s =
        let t = prefix_begin prompt reuse_limit s in
        if ltb t.resume (length prompt) then prefill (drop t.resume prompt) t else some t

    -- Runner::generate: the tokens and the session after it.
    unfoldable pub generate : ℕ → Session f → Option (List ℕ × Session f)
    generate reuse_limit s =
        if length prompt == 0 then some ([], s) else elim (prepare reuse_limit s) [
          | none ↦ none
          | some t ↦ some (generate_loop r.max_tokens [] r.seeded t)
        ]
