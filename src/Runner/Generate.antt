-- ===== src/Runner/Generate.antt =====
-- Generation through the prefix cache: every token is drawn after a run over all tokens before it.
use helios_glm53flash.Prelude.{
  ℕ, zero, suc, ◌+◌, ◌-◌, ◌≤◌, ◌<◌, ◌≡◌, refl, ap, subst, ◌∙◌, inl, inr, true, false, not, ◌&&◌,
  ◌||◌, List, [], ◌∷◌, ◌++◌, some, arith, length, take, drop, Bool-cases, length-take, length-drop,
  take-add, ltb, leb, ◌==◌, min,
}
use helios_glm53flash.Forward.{Forward, Shows}
use helios_glm53flash.Runner.{
  Config, Session, Request, prefix_begin, decode, generate_loop, prepare, generate,
}
use helios_glm53flash.Runner.Coherent.{Coherent}
use helios_glm53flash.Runner.Append.{append-Coherent}
use helios_glm53flash.Runner.Begin.{prefix_begin-Coherent}
use helios_glm53flash.Runner.Prefill.{prefill_total}

-- A session that the token loop may draw from: coherent, and if there is room for a token then the
-- hidden row is what a run over the whole history left.
pub record Ready {f : Forward} (c : Config) (s : Session f) : Type 0 where
  pub coherent : Coherent c s
  pub current : s.pos < c.cap → Shows f c.max_chunk s.hist s.hidden

module _ {f : Forward} (c : Config) (r : Request f) (prompt : List ℕ) where
  -- The sampler draws this token, and goes on in this state, from a hidden row that a run over the
  -- whole history has left, when there is room for a token.
  pub record Drawn (out : List ℕ) (smp : r.Sampler) (hist : List ℕ) (token : ℕ) (smp' : r.Sampler)
      : Type 0 where
    pub room : length hist < c.cap
    pub hidden : f.Hidden
    pub shown : Shows f c.max_chunk hist hidden
    pub drawn : r.sample smp hidden (prompt ++ out) ≡ (token, smp')

  -- What a loop of so many rounds may answer after the tokens in `out`. A token drawn joins the history.
  pub data Draws : ℕ → List ℕ → r.Sampler → List ℕ → List ℕ → Type 0 where
    spent : (out : List ℕ) (smp : r.Sampler) (hist : List ℕ) → Draws 0 out smp hist out
    no_room :
        (n : ℕ) (out : List ℕ) (smp : r.Sampler) (hist : List ℕ)
        → c.cap ≤ length hist
        → Draws (suc n) out smp hist out
    ended :
        (n : ℕ) (out : List ℕ) (smp : r.Sampler) (hist : List ℕ) (token : ℕ) (smp' : r.Sampler)
        → Drawn out smp hist token smp'
        → token ≡ r.eos_id
        → r.ignore_eos ≡ false
        → Draws (suc n) out smp hist out
    stopped :
        (n : ℕ) (out : List ℕ) (smp : r.Sampler) (hist : List ℕ) (token : ℕ) (smp' : r.Sampler)
        → Drawn out smp hist token smp'
        → (token ≡ r.eos_id → r.ignore_eos ≡ true)
        → (r.on_token (out ++ token ∷ []) ≡ true → r.max_tokens ≤ length (out ++ token ∷ []))
        → Draws (suc n) out smp hist (out ++ token ∷ [])
    more :
        (n : ℕ) (out : List ℕ) (smp : r.Sampler) (hist : List ℕ) (token : ℕ) (smp' : r.Sampler)
        (answer : List ℕ)
        → Drawn out smp hist token smp'
        → (token ≡ r.eos_id → r.ignore_eos ≡ true)
        → r.on_token (out ++ token ∷ []) ≡ true
        → length (out ++ token ∷ []) < r.max_tokens
        → Draws n (out ++ token ∷ []) smp' (hist ++ token ∷ []) answer
        → Draws (suc n) out smp hist answer

  decode-Ready :
      (token : ℕ) (s : Session f)
      → Ready c s
      → 0 < c.max_chunk
      → s.pos < c.cap
      → Ready c (decode c (token ∷ []) s) × ((decode c (token ∷ []) s).hist ≡ s.hist ++ token ∷ [])
  unfolding decode
  decode-Ready token s h some_chunk room =
      let done =
        append-Coherent (token ∷ []) s h.coherent (omega arith) (omega arith) (omega arith) in
      (record { coherent = done.0; current = λ p. done.1 }, refl)

  -- The token loop draws from runs over the history, and leaves the session ready.
  generate_loop-Draws :
      (rounds : ℕ) (out : List ℕ) (smp : r.Sampler) (s : Session f)
      → 0 < c.max_chunk
      → Ready c s
      → Draws rounds out smp s.hist (generate_loop c r prompt rounds out smp s).0
        × Ready c (generate_loop c r prompt rounds out smp s).1
  unfolding generate_loop
  generate_loop-Draws zero out smp s some_chunk h = (Draws.spent out smp s.hist, h)
  generate_loop-Draws (suc rounds) out smp s some_chunk h = elim (Bool-cases (leb c.cap s.pos)) [
    | inl full ↦ rw full (Draws.no_room rounds out smp s.hist (ground (arith, h.coherent.at)), h)
    | inr room ↦
        let free : s.pos < c.cap = ground arith in
        let (token, smp') = r.sample smp s.hidden (prompt ++ out) in
        let now : Drawn out smp s.hist token smp' = record {
          room = omega (arith, free, h.coherent.at);
          hidden = s.hidden;
          shown = h.current free;
          drawn = refl;
        } in
        let next = decode-Ready token s h some_chunk free in
        let u = decode c (token ∷ []) s in
        let answer = (generate_loop c r prompt rounds (out ++ token ∷ []) smp' u).0 in
        let rest = generate_loop-Draws rounds (out ++ token ∷ []) smp' u some_chunk next.0 in
        rw room (elim (Bool-cases ((token == r.eos_id) && not r.ignore_eos)) [
          | inl stop ↦
              rw stop
                (Draws.ended rounds out smp s.hist token smp' now (ground arith) (ground arith), h)
          | inr go ↦
              let on_eos : token ≡ r.eos_id → r.ignore_eos ≡ true = λ e. ground arith in
              rw go
                (elim (Bool-cases (
                  not (r.on_token (out ++ token ∷ []))
                  || leb r.max_tokens (length (out ++ token ∷ [])))) [
                    | inl stop ↦ rw stop (
                      Draws.stopped rounds out smp s.hist token smp' now on_eos (λ e. ground arith),
                      h,
                    )
                    | inr on ↦ rw on (
                      Draws.more rounds out smp s.hist token smp' answer now on_eos (ground arith)
                          (ground arith)
                          (subst (λ hist. Draws rounds (out ++ token ∷ []) smp' hist answer) next.1
                            rest.0),
                      rest.1,
                    )
                  ])
        ])
  ]

  -- Up to the token loop: whatever was resident, the prompt is resident, as far as it fits.
  prepare_total :
      (limit : ℕ) (s : Session f)
      → 0 < c.max_chunk
      → 0 < length prompt
      → Coherent c s
      → (t : Session f) × (prepare c r prompt limit s ≡ some t)
        × Ready c t
        × (t.hist ≡ take c.cap prompt)
  unfolding prepare
  prepare_total limit s some_chunk some_token h =
      let u = prefix_begin c prompt limit s in
      let (begun, at, held, allowed, left) = prefix_begin-Coherent s prompt limit h in
      let go : ltb u.resume (length prompt) ≡ true = ground (arith, left some_token) in
      let (t, ends, final, grown, current) =
        prefill_total c (drop u.resume prompt) u some_chunk begun in
      let fits : u.resume + (c.cap - u.pos) ≡ c.cap = omega (arith, at, begun.fits) in
      let whole : t.hist ≡ take c.cap prompt =
        grown
        ∙ ap (λ (xs : List ℕ). xs ++ take (c.cap - u.pos) (drop u.resume prompt)) held
        ∙ take-add u.resume (c.cap - u.pos) prompt
        ∙ ap (λ k. take k prompt) fits in
      let behind : t.pos ≡ min c.cap (length prompt) =
        final.at ∙ ap length whole ∙ length-take c.cap prompt in
      let back = length-drop u.resume prompt in
      rw go (
        t,
        ends,
        record {
          coherent = final;
          current = λ p.
              current (omega (arith, back, left some_token))
                (omega (arith, p, behind, at, left some_token));
        },
        whole,
      )

  -- With a positive chunk limit, over any coherent session and whatever the reuse limit, generation for a
  -- prompt with a token returns: each token of the answer is drawn from the hidden row that some run of the
  -- forward pass over the first `cap` tokens of the prompt and all the tokens drawn before, from the zeroed
  -- state and in chunks of at most `max_chunk` tokens, has left; the answer ends at the context limit, at eos,
  -- where `on_token` stops it or at `max_tokens`; and the session left is coherent.
  pub generate-Draws :
      (limit : ℕ) (s : Session f)
      → 0 < c.max_chunk
      → 0 < length prompt
      → Coherent c s
      → (out : List ℕ) × (t : Session f) × (generate c r prompt limit s ≡ some (out, t))
        × Draws r.max_tokens [] r.seeded (take c.cap prompt) out
        × Coherent c t
  unfolding generate
  generate-Draws limit s some_chunk some_token h =
      let (u, ends, ready, held) = prepare_total limit s some_chunk some_token h in
      let (draws, left) = generate_loop-Draws r.max_tokens [] r.seeded u some_chunk ready in
      let (out, t) = generate_loop c r prompt r.max_tokens [] r.seeded u in
      let go : (length prompt == 0) ≡ false = ground arith in
      rw (go, ends)
        (
          out,
          t,
          refl,
          subst (λ hist. Draws r.max_tokens [] r.seeded hist out) held draws,
          left.coherent,
        )
