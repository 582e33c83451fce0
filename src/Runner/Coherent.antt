-- ===== src/Runner/Coherent.antt =====
-- The session invariant of the runner: the caches hold what one run of the forward pass over the
-- resident history, cut into chunks in some way, has left. Which operations keep it.
use helios_glm53flash.Prelude.{
  ℕ, zero, suc, ◌+◌, ◌%◌, ◌≤◌, ◌<◌, ◌≡◌, refl, sym, ap, ◌∙◌, inl, inr, ◌||◌, not, List, none, some,
  arith, length, take, replicate, set, get_elem?, Bool-cases, length-append, length-set,
  length-replicate, take_of_length-le, get_elem?-set_self, get_elem?-set_ne, get_elem?-lt, ◌==◌,
}
use helios_glm53flash.Forward.{Forward, Run, new_rows, length-new_rows}
use helios_glm53flash.Runner.{Config, Session, reset, snap_capture}
use native.Mathlib.Decide.{ℕ_discrete}

-- The snapshot ring has its size, and its cursor lies inside.
pub record Ring {f : Forward} (c : Config) (s : Session f) : Type 0 where
  pub slots : length s.snap_pos ≡ c.n_snaps
  pub stored : length s.snap_host ≡ c.n_snaps
  pub next : 0 < c.n_snaps → s.snap_next < c.n_snaps

-- Slot `i` holds the recurrent state that a run over the history's first `p` tokens left with the
-- rows below `p`.
pub record Snapshot {f : Forward} (c : Config) (s : Session f) (i p : ℕ) : Type 0 where
  pub behind : p ≤ s.pos
  pub aligned : p % 4 ≡ 0
  pub state : f.Rec
  pub stored : get_elem? s.snap_host i ≡ some state
  pub run : Run f c.max_chunk (take p s.hist) state (take p s.rows)

pub record Coherent {f : Forward} (c : Config) (s : Session f) : Type 0 where
  pub at : s.pos ≡ length s.hist
  pub fits : s.pos ≤ c.cap
  pub run : Run f c.max_chunk s.hist s.rec (take s.pos s.rows)
  pub ring : Ring c s
  pub snaps : (i p : ℕ) → get_elem? s.snap_pos i ≡ some (some p) → Snapshot c s i p

replicate-none : (n i p : ℕ) → get_elem? (replicate n none) i ≡ some (some p) → ⊥
replicate-none zero i p e = cc
replicate-none (suc n) zero p e = ground arith
replicate-none (suc n) (suc i) p e = replicate-none n i p e

-- A run has a row per token.
pub length-Run :
    {f : Forward} {limit : ℕ} {hist : List ℕ} {rec : f.Rec} {rows : List f.Row}
    → Run f limit hist rec rows
    → length rows ≡ length hist
length-Run Run.start = refl
length-Run {f = f}
      (Run.next {hist = hist} {rec = rec} {rows = rows} rest tokens run some_token fits) =
    let row = (f.chunk rest rec rows tokens).row in
    omega (
      arith,
      length-Run run,
      length-append hist tokens,
      length-append rows (new_rows (length tokens) row),
      length-new_rows (length tokens) row,
    )

next-lt : (n k : ℕ) → 0 < n → (k + 1) % n < n
next-lt n k h = omega arith

some_inj : (a b : ℕ) → some (some a) ≡ some (some b) → a ≡ b
some_inj a b e = ground arith

module _ {f : Forward} {c : Config} where
  pub reset-Coherent : (s : Session f) → Ring c s → Coherent c (reset c s)
  unfolding reset
  reset-Coherent s r = record {
    at = refl;
    fits = omega arith;
    run = Run.start;
    ring = record {
      slots = length-replicate (length s.snap_pos) none ∙ r.slots;
      stored = r.stored;
      next = λ h. h;
    };
    snaps = λ i p e. absurd (replicate-none (length s.snap_pos) i p e);
  }

  -- The new snapshot is of the resident history; the others stay as they were.
  captured :
      (s : Session f)
      → Coherent c s
      → s.pos % 4 ≡ 0
      → (i p : ℕ) → get_elem? (set s.snap_pos s.snap_next (some s.pos)) i ≡ some (some p)
      → (p ≤ s.pos)
        × (p % 4 ≡ 0)
        × (k : f.Rec) × (get_elem? (set s.snap_host s.snap_next s.rec) i ≡ some k)
        × Run f c.max_chunk (take p s.hist) k (take p s.rows)
  captured s h a i p e = elim (ℕ_discrete s.snap_next i) [
    | yes here ↦
        let inside : s.snap_next < length s.snap_pos =
          omega (arith, here, get_elem?-lt _ i e, length-set s.snap_pos s.snap_next (some s.pos)) in
        let same : s.pos ≡ p = some_inj s.pos p (
          sym (get_elem?-set_self s.snap_pos s.snap_next (some s.pos) inside)
          ∙ ap (get_elem? (set s.snap_pos s.snap_next (some s.pos))) here
          ∙ e) in
        let whole : take p s.hist ≡ s.hist =
          take_of_length-le p s.hist (omega (arith, same, h.at)) in
        (
          omega (arith, same),
          omega (arith, same, a),
          s.rec,
          rw (← here)
              (get_elem?-set_self s.snap_host s.snap_next s.rec (omega (arith, inside, h.ring))),
          rw (whole, ← same) h.run,
        )
    | no other ↦
        let kept =
          h.snaps i p (sym (get_elem?-set_ne s.snap_pos s.snap_next i (some s.pos) other) ∙ e) in
        (
          kept.behind,
          kept.aligned,
          kept.state,
          get_elem?-set_ne s.snap_host s.snap_next i s.rec other ∙ kept.stored,
          kept.run,
        )
  ]

  pub snap_capture-Coherent : (s : Session f) → Coherent c s → Coherent c (snap_capture c s.pos s)
  unfolding snap_capture
  snap_capture-Coherent s h = elim (Bool-cases ((c.n_snaps == 0) || not (s.pos % 4 == 0))) [
    | inl idle ↦ rw idle h
    | inr live ↦
        let some_slot : 0 < c.n_snaps = ground arith in
        let aligned : s.pos % 4 ≡ 0 = ground arith in
        rw live (record {
          at = h.at;
          fits = h.fits;
          run = h.run;
          ring = record {
            slots = length-set s.snap_pos s.snap_next (some s.pos) ∙ h.ring.slots;
            stored = length-set s.snap_host s.snap_next s.rec ∙ h.ring.stored;
            next = next-lt c.n_snaps s.snap_next;
          };
          snaps = λ i p e.
              let (behind, even, state, stored, run) = captured s h aligned i p e in
              record { behind = behind; aligned = even; state = state; stored = stored; run = run };
        })
  ]
