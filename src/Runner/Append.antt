-- ===== src/Runner/Append.antt =====
-- A chunk that fits, run over a coherent session, prolongs the run that the caches hold.
use helios_glm53flash.Prelude.{
  ℕ, ◌+◌, ◌≤◌, ◌<◌, ◌≡◌, refl, sym, ap, subst, ◌∙◌, false, List, ◌++◌, arith, length, take, drop,
  length-append, take-append_length, take-append, take-take, ltb, leb,
}
use helios_glm53flash.Forward.{Forward, Out, Run, Shows, new_rows, length-new_rows}
use helios_glm53flash.Runner.{Config, Session, run_chunk}
use mathlib.Core.List.{append_assoc}
use helios_glm53flash.Runner.Coherent.{Coherent, length-Run}

module _ {f : Forward} where
  -- What a chunk leaves.
  abbrev outcome : List ℕ → Session f → Out f.Rest f.Rec f.Row f.Hidden
  outcome tokens s = f.chunk s.rest s.rec (take s.pos s.rows) tokens

  -- What a chunk that fits writes.
  abbrev written : List ℕ → Session f → Session f
  written tokens s =
      let out = outcome tokens s in
      record s {
        rest = out.rest;
        rec = out.rec;
        rows =
            take s.pos s.rows
            ++ (new_rows (length tokens) out.row ++ drop (s.pos + length tokens) s.rows);
        hidden = out.hidden;
      }

  run_chunk-written :
      (c : Config) (tokens : List ℕ) (s : Session f)
      → 0 < length tokens
      → s.pos + length tokens ≤ c.cap
      → run_chunk c tokens s ≡ written tokens s
  unfolding run_chunk
  run_chunk-written c tokens s some_token room =
      let a : leb c.cap s.pos ≡ false = ground arith in
      let b : ltb c.cap (s.pos + length tokens) ≡ false = ground arith in rw (a, b)

  -- The rows below the position, as many as it says.
  filled : (c : Config) (s : Session f) → Coherent c s → length (take s.pos s.rows) ≡ s.pos
  filled c s h = length-Run h.run ∙ sym h.at

  -- The rows up to the new position.
  append-rows :
      (c : Config) (s : Session f) (tokens : List ℕ)
      → Coherent c s
      → take (s.pos + length tokens) (written tokens s).rows
        ≡ take s.pos s.rows ++ new_rows (length tokens) (outcome tokens s).row
  append-rows c s tokens h =
      let old = take s.pos s.rows in
      let new = new_rows (length tokens) (outcome tokens s).row in
      let far = drop (s.pos + length tokens) s.rows in
      let fill : s.pos + length tokens ≡ length (old ++ new) = omega (
        arith,
        length-append old new,
        filled c s h,
        length-new_rows (length tokens) (outcome tokens s).row,
      ) in
      ap (take (s.pos + length tokens)) (sym (append_assoc old new far))
      ∙ take-append_length (s.pos + length tokens) (old ++ new) far fill

  -- The rows below a snapshot stay.
  kept-rows :
      (c : Config) (s : Session f) (tokens : List ℕ) (p : ℕ)
      → Coherent c s
      → p ≤ s.pos
      → take p (written tokens s).rows ≡ take p s.rows
  kept-rows c s tokens p h behind =
      let old = take s.pos s.rows in
      let new = new_rows (length tokens) (outcome tokens s).row in
      take-append p old (new ++ drop (s.pos + length tokens) s.rows) (omega (arith, filled c s h))
      ∙ take-take p s.pos s.rows behind

  -- The run that the new chunk prolongs.
  append-Run :
      (c : Config) (s : Session f) (tokens : List ℕ)
      → Coherent c s
      → 0 < length tokens
      → length tokens ≤ c.max_chunk
      → Run f c.max_chunk
          (s.hist ++ tokens)
          (outcome tokens s).rec
          (take (s.pos + length tokens) (written tokens s).rows)
  append-Run c s tokens h some_token short =
      subst (Run f c.max_chunk (s.hist ++ tokens) (outcome tokens s).rec)
        (sym (append-rows c s tokens h)) (Run.next s.rest tokens h.run some_token short)

module _ {f : Forward} {c : Config} where
  -- Running a chunk that fits, and noting its tokens, keeps the caches coherent.
  pub append-Coherent :
      (tokens : List ℕ) (s : Session f)
      → Coherent c s
      → 0 < length tokens
      → length tokens ≤ c.max_chunk
      → s.pos + length tokens ≤ c.cap
      → let t = run_chunk c tokens s in
        Coherent c (record t { pos = s.pos + length tokens; hist = s.hist ++ tokens })
        × Shows f c.max_chunk (s.hist ++ tokens) t.hidden
  append-Coherent tokens s h some_token short room =
      rw (run_chunk-written c tokens s some_token room) (
        record {
          at = omega (arith, h.at, length-append s.hist tokens);
          fits = room;
          run = append-Run c s tokens h some_token short;
          ring = record { slots = h.ring.slots; stored = h.ring.stored; next = h.ring.next };
          snaps = λ i p e.
              let known = h.snaps i p e in
              record {
                behind = omega (arith, known.behind);
                aligned = known.aligned;
                state = known.state;
                stored = known.stored;
                run =
                    rw
                      (
                        take-append p s.hist tokens (omega (arith, known.behind, h.at)),
                        kept-rows c s tokens p h known.behind,
                      )
                      known.run;
              };
        },
        record {
          before = s.hist;
          tokens = tokens;
          rec = s.rec;
          rows = take s.pos s.rows;
          rest = s.rest;
          run = h.run;
          some_token = some_token;
          fits = short;
          whole = refl;
          left = refl;
        },
      )
