-- ===== src/Prefix/Resume.antt =====
-- Why a resume position of `prefix_plan` is safe to resume at.
use helios_glm53flash.Prelude.{
  Bool-cases, ℕ, zero, suc, ◌≤◌, ◌<◌, min, ◌≡◌, refl, sym, ap, ◌∙◌, ◌↔◌, inl, inr, true, false,
  List, [], ◌∷◌, Option, none, some, arith, length, take, Option-cases, ◌⊎◌, ◌==◌, ◌&&◌, take-take,
  take_of_length-le,
}
use helios_glm53flash.Prefix.{shared, newest, replay_point, plan_at, prefix_plan}
use helios_glm53flash.Prefix.Newest.{IsUsable, position, newest-le, newest-IsUsable, newest-ge}

pub shared-le :
    (lim : ℕ) (prompt hist : List ℕ)
    → (shared lim prompt hist ≤ lim)
      × (shared lim prompt hist ≤ length prompt)
      × (shared lim prompt hist ≤ length hist)
unfolding shared
shared-le zero prompt hist = omega arith
shared-le (suc lim) [] hist = omega arith
shared-le (suc lim) (p ∷ prompt) [] = omega arith
shared-le (suc lim) (p ∷ prompt) (h ∷ hist) = ground (arith, shared-le lim prompt hist)

pub take-shared :
    (lim : ℕ) (prompt hist : List ℕ)
    → take (shared lim prompt hist) prompt ≡ take (shared lim prompt hist) hist
unfolding shared
take-shared zero prompt hist = refl
take-shared (suc lim) [] hist = refl
take-shared (suc lim) (p ∷ prompt) [] = refl
take-shared (suc lim) (p ∷ prompt) (h ∷ hist) = ground (arith, take-shared lim prompt hist)

-- A history that starts the prompt is scanned to its end.
pub shared_of_prefix :
    (lim : ℕ) (prompt hist : List ℕ)
    → length hist ≤ lim
    → take (length hist) prompt ≡ hist
    → length hist ≤ length prompt
    → shared lim prompt hist ≡ length hist
unfolding shared
shared_of_prefix zero prompt [] h e k = refl
shared_of_prefix zero prompt (x ∷ hist) h e k = absurd (omega arith)
shared_of_prefix (suc lim) [] [] h e k = refl
shared_of_prefix (suc lim) [] (x ∷ hist) h e k = absurd (omega arith)
shared_of_prefix (suc lim) (p ∷ prompt) [] h e k = refl
shared_of_prefix (suc lim) (p ∷ prompt) (x ∷ hist) h e k =
    ground (arith, shared_of_prefix lim prompt hist)

pub replay_point-le :
    (common : ℕ) (prompt : List ℕ) → common ≤ length prompt → replay_point common prompt ≤ common
unfolding replay_point
replay_point-le common prompt h = ground arith

pub replay_point-lt :
    (common : ℕ) (prompt : List ℕ) → 0 < length prompt → replay_point common prompt < length prompt
unfolding replay_point
replay_point-lt common prompt h = ground arith

-- A plan, by its branch.
extend-plan_at :
    (common point pos : ℕ) (hist : List ℕ) (snap_pos : List (Option ℕ))
    → ((plan_at common point hist pos snap_pos).extend ≡ true)
      ↔ ((point ≡ pos) × (point ≡ length hist))
unfolding plan_at
extend-plan_at common point pos hist snap_pos = elim (Option-cases (newest point 0 snap_pos none)) [
  | inl e ↦ (λ x. ground arith, λ h. ground arith)
  | inr (a, e) ↦ (λ x. ground arith, λ h. ground arith)
]

plan_at-resume :
    (common point pos : ℕ) (hist : List ℕ) (snap_pos : List (Option ℕ))
    → let plan = plan_at common point hist pos snap_pos in
      (plan.resume ≤ point)
      × (position (newest point 0 snap_pos none) ≤ plan.resume)
      × (plan.common ≡ common)
unfolding plan_at
plan_at-resume common point pos hist snap_pos =
    let bound = newest-le point snap_pos in
    elim (Option-cases (newest point 0 snap_pos none)) [
      | inl e ↦ (ground arith, ground arith, ground arith)
      | inr (a, e) ↦ (ground arith, ground arith, ground arith)
    ]

plan_at-slot :
    (common point pos : ℕ) (hist : List ℕ) (snap_pos : List (Option ℕ)) (i : ℕ)
    → let plan = plan_at common point hist pos snap_pos in
      plan.slot ≡ some i
      → (newest point 0 snap_pos none ≡ some (i, plan.resume)) × (plan.extend ≡ false)
unfolding plan_at
plan_at-slot common point pos hist snap_pos i h =
    elim (Option-cases (newest point 0 snap_pos none)) [
      | inl e ↦ absurd (ground arith)
      | inr (a, e) ↦ (ground arith, ground arith)
    ]

replay_point-full :
    (common : ℕ) (prompt : List ℕ)
    → 0 < length prompt
    → common ≤ replay_point common prompt
    → (replay_point common prompt ≡ common) × (common < length prompt)
unfolding replay_point
replay_point-full common prompt some_token h = ground arith

replay_point_of_lt :
    (common : ℕ) (prompt : List ℕ) → common < length prompt → replay_point common prompt ≡ common
unfolding replay_point
replay_point_of_lt common prompt h = ground arith

-- The three shapes of a plan.
plan_at_cases :
    (common point pos : ℕ) (hist : List ℕ) (snap_pos : List (Option ℕ))
    → let plan = plan_at common point hist pos snap_pos in
      ((plan.extend ≡ true) × (plan.resume ≡ pos) × (plan.resume ≡ length hist))
      ⊎ ((plan.extend ≡ false) × (plan.slot ≡ none) × (plan.resume ≡ 0))
      ⊎ ((i : ℕ) × (plan.extend ≡ false) × (plan.slot ≡ some i))
unfolding plan_at
plan_at_cases common point pos hist snap_pos =
    elim (Bool-cases ((point == pos) && (point == length hist))) [
      | inl here ↦ rw here (inl (refl, ground arith, ground arith))
      | inr away ↦ rw away (elim (Option-cases (newest point 0 snap_pos none)) [
        | inl e ↦ rw e (inr (inl (refl, refl, refl)))
        | inr ((i, p), e) ↦ rw e (inr (inr (i, refl, refl)))
      ])
    ]

abbrev limit_of : List ℕ → ℕ → ℕ → ℕ
limit_of hist pos reuse_limit = min (min (length hist) pos) reuse_limit

-- What a resume position promises: the tokens before it are the history's and the prompt's, the
-- caches hold them, and it lies within the caller's reuse limit.
pub record IsSafe (hist : List ℕ) (pos : ℕ) (prompt : List ℕ) (reuse_limit at : ℕ) : Type 0 where
  pub same : take at prompt ≡ take at hist
  pub computed : at ≤ pos
  pub held : at ≤ length hist
  pub allowed : at ≤ reuse_limit
  pub offered : at ≤ length prompt

module _ (hist : List ℕ) (pos : ℕ) (prompt : List ℕ) (reuse_limit : ℕ) where
  common_of : ℕ
  common_of = shared (limit_of hist pos reuse_limit) prompt hist

  common-IsSafe : IsSafe hist pos prompt reuse_limit common_of
  unfolding common_of
  common-IsSafe =
      let bounds = shared-le (limit_of hist pos reuse_limit) prompt hist in
      record {
        same = take-shared (limit_of hist pos reuse_limit) prompt hist;
        computed = omega (arith, bounds);
        held = omega (arith, bounds);
        allowed = omega (arith, bounds);
        offered = omega (arith, bounds);
      }

  IsSafe-le :
      {a b : ℕ}
      → b ≤ a
      → IsSafe hist pos prompt reuse_limit a
      → IsSafe hist pos prompt reuse_limit b
  IsSafe-le {a} {b} h s = record {
    same = sym (take-take b a prompt h) ∙ ap (take b) s.same ∙ take-take b a hist h;
    computed = omega arith;
    held = omega arith;
    allowed = omega arith;
    offered = omega arith;
  }

  -- The position at which `prefix_plan` resumes is covered: prompt and history agree up to it, and
  -- it is within the rows computed, the history, the reuse limit and the prompt; and of a prompt
  -- with a token at least one token is left to run.
  pub resume-IsSafe :
      (snap_pos : List (Option ℕ))
      → let at = (prefix_plan hist pos prompt snap_pos reuse_limit).resume in
        IsSafe hist pos prompt reuse_limit at × (0 < length prompt → at < length prompt)
  unfolding prefix_plan common_of
  resume-IsSafe snap_pos =
      let safe = common-IsSafe in
      let below = plan_at-resume common_of (replay_point common_of prompt) pos hist snap_pos in
      let point = replay_point-le common_of prompt safe.offered in
      (
        IsSafe-le (omega (arith, below)) safe,
        λ some_token. omega (arith, below, replay_point-lt common_of prompt some_token),
      )

  -- The plan is to extend exactly when the whole history is computed, starts the prompt, leaves a
  -- token of it to run, and lies within the reuse limit; the prompt has a token.
  pub extend_iff :
      (snap_pos : List (Option ℕ))
      → 0 < length prompt
      → ((prefix_plan hist pos prompt snap_pos reuse_limit).extend ≡ true) ↔ (
          (pos ≡ length hist)
          × (pos < length prompt)
          × (take pos prompt ≡ hist)
          × (pos ≤ reuse_limit))
  unfolding prefix_plan common_of
  extend_iff snap_pos some_token =
      let point = replay_point common_of prompt in
      let at = extend-plan_at common_of point pos hist snap_pos in
      let safe = common-IsSafe in
      (
        λ e.
            let ends = at.0 e in
            let full =
              replay_point-full common_of prompt some_token (omega (arith, ends, safe.held)) in
            let whole : pos ≡ common_of = omega (arith, ends, full) in
            (
              omega (arith, ends),
              omega (arith, ends, full),
              rw whole (safe.same ∙ take_of_length-le common_of hist (omega (arith, ends, full))),
              omega (arith, whole, safe.allowed),
            ),
        λ h.
            let held : length hist ≡ pos = omega (arith, h) in
            let whole : common_of ≡ length hist =
              shared_of_prefix (limit_of hist pos reuse_limit) prompt hist (omega (arith, h))
                (rw held h.2) (omega (arith, h)) in
            let last = replay_point_of_lt common_of prompt (omega (arith, whole, h)) in
            at.1 (omega (arith, last, whole, h), omega (arith, last, whole)),
      )

  -- A restored slot holds a snapshot at exactly the resume position, on a pool boundary.
  pub restore-IsUsable :
      (snap_pos : List (Option ℕ)) (i : ℕ)
      → let plan = prefix_plan hist pos prompt snap_pos reuse_limit in
        plan.slot ≡ some i → IsUsable plan.common snap_pos i plan.resume × (plan.extend ≡ false)
  unfolding prefix_plan common_of
  restore-IsUsable snap_pos i e =
      let point = replay_point common_of prompt in
      let found = plan_at-slot common_of point pos hist snap_pos i e in
      let usable = newest-IsUsable point snap_pos i _ found.0 in
      let same = plan_at-resume common_of point pos hist snap_pos in
      let below = replay_point-le common_of prompt common-IsSafe.offered in
      (
        record {
          stored = usable.stored;
          within = omega (arith, same, usable.within, below);
          aligned = usable.aligned;
        },
        found.1,
      )

  -- No snapshot that could be restored is newer than the resume position.
  pub resume_newest :
      (snap_pos : List (Option ℕ)) (i at : ℕ)
      → let plan = prefix_plan hist pos prompt snap_pos reuse_limit in
        IsUsable plan.common snap_pos i at → at < length prompt → at ≤ plan.resume
  unfolding prefix_plan common_of replay_point
  resume_newest snap_pos i at u h =
      let point = replay_point common_of prompt in
      let same = plan_at-resume common_of point pos hist snap_pos in
      let here : at ≤ point = ground (arith, same, u.within) in
      omega (
        arith,
        same,
        newest-ge point 0 snap_pos none i at
            (record { stored = u.stored; within = here; aligned = u.aligned }),
      )

  -- A plan extends at the position reached, or starts anew, or restores a slot.
  pub plan_cases :
      (snap_pos : List (Option ℕ))
      → let plan = prefix_plan hist pos prompt snap_pos reuse_limit in
        ((plan.extend ≡ true) × (plan.resume ≡ pos) × (plan.resume ≡ length hist))
        ⊎ ((plan.extend ≡ false) × (plan.slot ≡ none) × (plan.resume ≡ 0))
        ⊎ ((i : ℕ) × (plan.extend ≡ false) × (plan.slot ≡ some i))
  unfolding prefix_plan common_of
  plan_cases snap_pos = plan_at_cases common_of (replay_point common_of prompt) pos hist snap_pos
