-- ===== src/Runner/Begin.antt =====
-- How a request begins: `prefix_begin` leaves the caches coherent at the position it resumes at.
use helios_glm53flash.Prelude.{
  ℕ, ◌-◌, ◌%◌, ◌≤◌, ◌<◌, ◌≡◌, refl, sym, ap, ◌∙◌, inl, inr, false, List, ◌++◌, some, arith, length,
  take, replicate, get_elem?, length-take, take_of_length-le, take-take, ltb,
}
use helios_glm53flash.Forward.{Forward, Run}
use helios_glm53flash.Prefix.{prefix_plan}
use helios_glm53flash.Prefix.Resume.{resume-IsSafe, restore-IsUsable, plan_cases}
use helios_glm53flash.Prefix.Branch.{prefix_discard_suffix-Discards}
use helios_glm53flash.Runner.{
  Config, Session, resize, reset, snap_restore, wind_back, within_cap, settle, prefix_begin,
}
use helios_glm53flash.Runner.Coherent.{Ring, Coherent, reset-Coherent}
use mathlib.Core.List.{append-nil}

pub resize_short : (n : ℕ) (xs : List ℕ) → n ≤ length xs → resize n xs ≡ take n xs
resize_short n xs h =
    let e : n - length xs ≡ 0 = omega arith in
    ap (λ k. take n xs ++ replicate k 0) e ∙ append-nil (take n xs)

-- What must hold before the suffix behind the resume position is discarded.
record Resumable {f : Forward} (c : Config) (s : Session f) : Type 0 where
  held : s.resume ≤ length s.hist
  fits : s.resume ≤ c.cap
  run : Run f c.max_chunk (take s.resume s.hist) s.rec (take s.resume s.rows)
  ring : Ring c s
  snaps :
      (i p : ℕ)
      → get_elem? s.snap_pos i ≡ some (some p)
      → (p % 4 ≡ 0)
        × (k : f.Rec) × (get_elem? s.snap_host i ≡ some k)
        × Run f c.max_chunk (take p s.hist) k (take p s.rows)

within_cap_idle : {f : Forward} (c : Config) (s : Session f) → s.resume ≤ c.cap → within_cap c s ≡ s
unfolding within_cap
within_cap_idle c s h = let e : ltb c.cap s.resume ≡ false = ground arith in rw e

module _ {f : Forward} {c : Config} where
  -- What the snapshots of a coherent session hold.
  known :
      (s : Session f)
      → Coherent c s
      → (i p : ℕ) → get_elem? s.snap_pos i ≡ some (some p)
      → (p % 4 ≡ 0)
        × (k : f.Rec) × (get_elem? s.snap_host i ≡ some k)
        × Run f c.max_chunk (take p s.hist) k (take p s.rows)
  known s h i p e = let snap = h.snaps i p e in (snap.aligned, snap.state, snap.stored, snap.run)

  Resumable-of_Coherent :
      (s : Session f) (r : ℕ) → r ≡ s.pos → Coherent c s → Resumable c (record s { resume = r })
  Resumable-of_Coherent s r e h = record {
    held = omega (arith, h.at);
    fits = omega (arith, h.fits);
    run = rw (take_of_length-le r s.hist (omega (arith, e, h.at)), e) h.run;
    ring = record { slots = h.ring.slots; stored = h.ring.stored; next = h.ring.next };
    snaps = known s h;
  }

  settle-Coherent : (s : Session f) → Resumable c s → Coherent c (settle c s)
  unfolding settle
  settle-Coherent s h =
      let d = prefix_discard_suffix-Discards s.snap_pos s.resume in
      let short = resize_short s.resume s.hist h.held in
      rw short (record {
        at = omega (arith, h.held, length-take s.resume s.hist);
        fits = h.fits;
        run = h.run;
        ring = record {
          slots = d.as_many ∙ h.ring.slots;
          stored = h.ring.stored;
          next = h.ring.next;
        };
        snaps = λ i p e.
            let old = d.from_before i p e in
            let (even, state, stored, run) = h.snaps i p old.0 in
            record {
              behind = old.1;
              aligned = even;
              state = state;
              stored = stored;
              run = rw (take-take p s.resume s.hist old.1) run;
            };
      })

  -- Restoring a snapshot brings back the state of the prefix that it was taken at.
  restore-Resumable :
      (s : Session f) (i r : ℕ)
      → Coherent c s
      → get_elem? s.snap_pos i ≡ some (some r)
      → Resumable c (record (snap_restore c i s) { resume = r })
        × ((snap_restore c i s).hist ≡ s.hist)
  unfolding snap_restore
  restore-Resumable s i r h e =
      let snap = h.snaps i r e in
      rw (snap.stored, snap_restore)
        (
          record {
            held = omega (arith, snap.behind, h.at);
            fits = omega (arith, snap.behind, h.fits);
            run = snap.run;
            ring = record { slots = h.ring.slots; stored = h.ring.stored; next = h.ring.next };
            snaps = known s h;
          },
          refl,
        )

  -- Starting anew.
  reset-Resumable : (s : Session f) → Ring c s → Resumable c (record (reset c s) { resume = 0 })
  reset-Resumable s r =
      Resumable-of_Coherent (reset c s) 0 (unfold reset in refl) (reset-Coherent s r)

  -- The session in which `prefix_begin` settles, for each shape of the plan.
  wind_back-Resumable :
      (s : Session f) (prompt : List ℕ) (limit : ℕ)
      → Coherent c s
      → let plan = prefix_plan s.hist s.pos prompt s.snap_pos limit in
        let t = wind_back c plan s in
        Resumable c t × (t.resume ≡ plan.resume) × (take t.resume t.hist ≡ take plan.resume s.hist)
  unfolding wind_back
  wind_back-Resumable s prompt limit h =
      let plan = prefix_plan s.hist s.pos prompt s.snap_pos limit in
      elim (plan_cases s.hist s.pos prompt limit s.snap_pos) [
        | inl (e, here, all) ↦ rw e (Resumable-of_Coherent s plan.resume here h, refl, refl)
        | inr (inl (e, fresh, start)) ↦
            rw (e, fresh) (reset-Resumable s h.ring, sym start, ap (λ k. take k s.hist) (sym start))
        | inr (inr (i, e, slot)) ↦
            let (ready, same) =
              restore-Resumable s i plan.resume h
                (restore-IsUsable s.hist s.pos prompt limit s.snap_pos i slot).0.stored in
            rw (e, slot) (ready, refl, ap (take plan.resume) same)
      ]

  -- Whatever a coherent session held, `prefix_begin` leaves a coherent one at the resume position, whose
  -- history is the prompt up to it, within the reuse limit; of a prompt with a token at least one is left
  -- to run. Coherent: the recurrent state and the rows below the position, and each snapshot with the
  -- rows below it, are what some run of the forward pass over the tokens up to there left, from the
  -- zeroed state and in chunks of at most `max_chunk` tokens.
  pub prefix_begin-Coherent :
      (s : Session f) (prompt : List ℕ) (limit : ℕ)
      → Coherent c s
      → let t = prefix_begin c prompt limit s in
        Coherent c t
        × (t.pos ≡ t.resume)
        × (t.hist ≡ take t.resume prompt)
        × (t.resume ≤ limit)
        × (0 < length prompt → t.resume < length prompt)
  unfolding prefix_begin
  prefix_begin-Coherent s prompt limit h =
      let plan = prefix_plan s.hist s.pos prompt s.snap_pos limit in
      let t = wind_back c plan s in
      let (ready, at, held) = wind_back-Resumable s prompt limit h in
      let safe = resume-IsSafe s.hist s.pos prompt limit s.snap_pos in
      rw (within_cap_idle c t ready.fits) (
        settle-Coherent t ready,
        unfold settle in refl,
        unfold settle in
            (resize_short t.resume t.hist ready.held
              ∙ held
              ∙ sym safe.0.same
              ∙ ap (λ k. take k prompt) (sym at)),
        unfold settle in omega (arith, at, safe.0.allowed),
        λ some_token. unfold settle in omega (arith, at, safe.1 some_token),
      )
