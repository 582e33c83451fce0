-- ===== src/Runner/Prefill.antt =====
-- Chunked prefill: it ends, and leaves the caches coherent over the tokens that fit.
use helios_glm53flash.Prelude.{
  if◌then◌else◌, ◌/◌, ◌%◌, ◌*◌, ◌⊎◌, ℕ, zero, suc, ◌+◌, ◌-◌, ◌≤◌, ◌<◌, ◌≡◌, refl, sym, ap, ◌∙◌, inl,
  inr, not, ◌&&◌, ◌||◌, List, [], ◌∷◌, ◌++◌, some, arith, length, take, drop, Bool-cases,
  length-take, length-drop, take_of_length-le, take-append-drop, ltb, leb, ◌==◌, min,
}
use helios_glm53flash.Prefix.{prefix_checkpoint_before}
use helios_glm53flash.Forward.{Forward, Shows}
use helios_glm53flash.Runner.{
  Config, Session, resize, snap_capture, run_chunk, cut_at, chunk_size, prefill_round, prefill_loop,
  prefill,
}
use helios_glm53flash.Runner.Coherent.{Coherent, snap_capture-Coherent}
use helios_glm53flash.Runner.Append.{append-Coherent}
use helios_glm53flash.Runner.Begin.{resize_short}
use mathlib.Core.List.{append-nil, append_assoc}

cut_at_bounds :
    (pos checkpoint n : ℕ) → 0 < n → (0 < cut_at pos checkpoint n) × (cut_at pos checkpoint n ≤ n)
cut_at_bounds pos checkpoint n h = ground arith

fitting_take :
    (cap pos : ℕ) (ids : List ℕ)
    → (if ltb cap (pos + length ids) then take (cap - pos) ids else ids) ≡ take (cap - pos) ids
fitting_take cap pos ids = elim (Bool-cases (ltb cap (pos + length ids))) [
  | inl long ↦ rw long
  | inr short ↦ rw short (sym (take_of_length-le (cap - pos) ids (ground arith)))
]

shown_of_none :
    {f : Forward} (limit : ℕ) (s : Session f)
    → Shows f limit s.hist s.hidden ⊎ (0 < 0)
    → Shows f limit s.hist s.hidden
shown_of_none limit s (inl shows) = shows
shown_of_none limit s (inr e) = absurd (omega arith)

module _ {f : Forward} (c : Config) where
  -- With a positive chunk limit and tokens left, a round takes a token, no more than a chunk, and no
  -- more than there are.
  pub chunk_size_bounds :
      (tail : ℕ) (s : Session f) (ids : List ℕ)
      → 0 < c.max_chunk
      → 0 < length ids
      → let n = chunk_size c tail s ids in (0 < n) × (n ≤ length ids) × (n ≤ c.max_chunk)
  unfolding chunk_size
  chunk_size_bounds tail s ids some_chunk some_token =
      let n = min c.max_chunk (length ids) in
      let interval = (s.snap_last + c.snap_interval + 4 - 1) / 4 * 4 in
      let one = cut_at_bounds s.pos interval n (omega arith) in
      let two = cut_at_bounds s.pos tail (cut_at s.pos interval n) one.0 in
      elim (Bool-cases (c.n_snaps == 0)) [
        | inl e ↦ rw e (omega arith)
        | inr e ↦ rw e (omega (arith, one, two))
      ]

  -- A capture touches nothing but the ring.
  capture_keeps :
      (pos : ℕ) (s : Session f)
      → ((snap_capture c pos s).hist ≡ s.hist)
        × ((snap_capture c pos s).pos ≡ s.pos)
        × ((snap_capture c pos s).hidden ≡ s.hidden)
  unfolding snap_capture
  capture_keeps pos s = elim (Bool-cases ((c.n_snaps == 0) || not (pos % 4 == 0))) [
    | inl e ↦ rw e (refl, refl, refl)
    | inr e ↦ rw e (refl, refl, refl)
  ]

  prefill_round-Coherent :
      (tail : ℕ) (chunk : List ℕ) (s : Session f)
      → Coherent c s
      → 0 < length chunk
      → length chunk ≤ c.max_chunk
      → s.pos + length chunk ≤ c.cap
      → let t = prefill_round c tail chunk s in
        Coherent c t
        × (t.hist ≡ s.hist ++ chunk)
        × (t.pos ≡ s.pos + length chunk)
        × Shows f c.max_chunk (s.hist ++ chunk) t.hidden
  unfolding prefill_round
  prefill_round-Coherent tail chunk s h some_token short room =
      let done = append-Coherent chunk s h some_token short room in
      let t = run_chunk c chunk s in
      let u : Session f = record t { pos = s.pos + length chunk; hist = s.hist ++ chunk } in
      let kept = capture_keeps u.pos u in
      elim (Bool-cases
        (not (c.n_snaps == 0) && (leb (u.snap_last + c.snap_interval) u.pos || (u.pos == tail)))) [
          | inl e ↦ rw e (snap_capture-Coherent u done.0, kept.0, kept.1, rw kept.2 done.1)
          | inr e ↦ rw e (done.0, refl, refl, done.1)
        ]

  -- With a fuel of one round per token the loop ends, over all the tokens.
  prefill_loop_total :
      (fuel tail : ℕ) (ids : List ℕ) (s : Session f)
      → 0 < c.max_chunk
      → Coherent c s
      → length ids ≤ fuel
      → s.pos + length ids ≤ c.cap
      → (t : Session f) × (prefill_loop c fuel tail ids s ≡ some t)
        × Coherent c t
        × (t.hist ≡ s.hist ++ ids)
        × (Shows f c.max_chunk s.hist s.hidden ⊎ (0 < length ids)
            → Shows f c.max_chunk t.hist t.hidden)
  unfolding prefill_loop
  prefill_loop_total zero tail [] s some_chunk h enough room =
      (s, refl, h, sym (append-nil s.hist), shown_of_none c.max_chunk s)
  prefill_loop_total (suc fuel) tail [] s some_chunk h enough room =
      (s, refl, h, sym (append-nil s.hist), shown_of_none c.max_chunk s)
  prefill_loop_total zero tail (i ∷ ids) s some_chunk h enough room = absurd (omega arith)
  prefill_loop_total (suc fuel) tail (i ∷ ids) s some_chunk h enough room =
      let all : List ℕ = i ∷ ids in
      let n = chunk_size c tail s all in
      let bounds = chunk_size_bounds tail s all some_chunk (omega arith) in
      let front = length-take n all in
      let back = length-drop n all in
      let (round, now, at, out) =
        prefill_round-Coherent tail (take n all) s h (omega (arith, front, bounds))
          (omega (arith, front, bounds)) (omega (arith, front, bounds)) in
      let u = prefill_round c tail (take n all) s in
      let (t, ends, final, grown, last) =
        prefill_loop_total fuel tail (drop n all) u some_chunk round (omega (arith, back, bounds))
          (omega (arith, back, front, bounds, at)) in
      let whole : t.hist ≡ s.hist ++ all =
        grown
        ∙ ap (λ (xs : List ℕ). xs ++ drop n all) now
        ∙ append_assoc s.hist (take n all) (drop n all)
        ∙ ap (◌++◌ s.hist) (take-append-drop n all) in
      let current : Shows f c.max_chunk u.hist u.hidden = rw now out in
      (t, ends, final, whole, λ p. last (inl current))

  -- With a positive chunk limit, prefill of a coherent session ends, and leaves a coherent one over the
  -- history and the tokens that fit in the context; if a token was run, the hidden row is what the last chunk
  -- of a run over that history, in chunks of at most `max_chunk` tokens, left.
  pub prefill_total :
      (ids : List ℕ) (s : Session f)
      → 0 < c.max_chunk
      → Coherent c s
      → (t : Session f) × (prefill c ids s ≡ some t)
        × Coherent c t
        × (t.hist ≡ s.hist ++ take (c.cap - s.pos) ids)
        × (0 < length ids → s.pos < c.cap → Shows f c.max_chunk t.hist t.hidden)
  unfolding prefill
  prefill_total ids s some_chunk h =
      let same : resize s.pos s.hist ≡ s.hist =
        resize_short s.pos s.hist (omega (arith, h.at))
        ∙ take_of_length-le s.pos s.hist (omega (arith, h.at)) in
      rw same (elim (Bool-cases (leb c.cap s.pos)) [
        | inl full ↦ rw full (
            let none_left : c.cap - s.pos ≡ 0 = ground arith in
            (s, refl, h, rw none_left (sym (append-nil s.hist)), λ p q. absurd (ground arith)))
        | inr room ↦
            let fitting = take (c.cap - s.pos) ids in
            let long = length-take (c.cap - s.pos) ids in
            let (t, ends, final, grown, last) =
              prefill_loop_total (length fitting)
                (prefix_checkpoint_before (s.pos + length fitting)) fitting s some_chunk h
                (omega arith) (ground (arith, long)) in
            rw (room, fitting_take c.cap s.pos ids)
              (t, ends, final, grown, λ p q. last (inr (omega (arith, long))))
      ])
