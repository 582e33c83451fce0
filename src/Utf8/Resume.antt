-- ===== src/Utf8/Resume.antt =====
-- The complete prefix of a longer string, from that of its beginning.
use helios_glm53flash.Prelude.{
  ℕ, zero, suc, ◌+◌, ◌≤◌, ◌≡◌, refl, sym, ap, subst, ◌∙◌, List, [], ◌∷◌, ◌++◌, arith, length, take,
  drop, length-take, length-append, take-append-drop, drop-append,
}
use mathlib.Core.List.{append_assoc}
use helios_glm53flash.Utf8.{utf8_seq_len, complete_from, utf8_complete_prefix}
use helios_glm53flash.Utf8.Chars.{Starts, Needs-len, Whole, Starts-found}
use helios_glm53flash.Utf8.Complete.{
  Stuck, Complete, complete_from-Complete, utf8_complete_prefix-Complete,
}

Starts-append : (b : ℕ) (s rest v : List ℕ) → Starts b s rest → Starts b (s ++ v) (rest ++ v)
Starts-append b s rest v h = record {
  tail = h.tail;
  cut = ap (λ u. u ++ v) h.cut ∙ append_assoc h.tail rest v;
  needs = h.needs;
  follows = h.follows;
}

-- A Stuck string has no whole characters at its start.
Complete-Stuck : (r : ℕ) (v : List ℕ) → Stuck v → Complete r v → r ≡ 0
Complete-Stuck zero v stuck c = refl
Complete-Stuck (suc r) [] stuck c = absurd (omega (arith, c.within))
Complete-Stuck (suc r) (b ∷ v) stuck c =
    absurd (no_character (take r v) (drop r v) (take-append-drop r v) c.whole)
  where
    no_character : (u w : List ℕ) → u ++ w ≡ v → ¬ Whole (b ∷ u)
    no_character u w e (Whole.character _ _ rest h _) =
        stuck b v (rest ++ w) refl
          (subst (λ t. Starts b t (rest ++ w)) e (Starts-append b u rest w h))

complete_from-Stuck :
    (fuel i : ℕ) (v : List ℕ) → length v ≤ fuel → Stuck v → complete_from fuel i v ≡ i
complete_from-Stuck fuel i v enough stuck =
    let (r, e, c) = complete_from-Complete fuel i v enough in
    omega (arith, e, Complete-Stuck r v stuck c)

-- Whole characters are passed.
complete_from-Whole :
    (u v : List ℕ) (fuel i : ℕ)
    → Whole u
    → Stuck v
    → length (u ++ v) ≤ fuel
    → complete_from fuel i (u ++ v) ≡ i + length u
unfolding complete_from
complete_from-Whole _ v fuel i Whole.nothing stuck enough =
    complete_from-Stuck fuel i v enough stuck ∙ omega arith
complete_from-Whole _ v zero i (Whole.character b s rest h w) stuck enough = absurd (omega arith)
complete_from-Whole _ v (suc fuel) i (Whole.character b s rest h w) stuck enough =
    let (some_need, long, follows, joined, left) =
      Starts-found b (s ++ v) (rest ++ v) (Starts-append b s rest v h) in
    let size = length-append h.tail rest in
    let size_s = ap length h.cut in
    let size_v = length-append s v in
    let size_rest = length-append rest v in
    rw (some_need, long, follows, left)
      (complete_from-Whole rest v fuel (i + utf8_seq_len b) w stuck
          (omega (arith, Needs-len h.needs))
        ∙ omega (arith, Needs-len h.needs))

Whole-append : (u v : List ℕ) → Whole u → Whole v → Whole (u ++ v)
Whole-append _ v Whole.nothing k = k
Whole-append _ v (Whole.character b s rest h w) k =
    Whole.character b (s ++ v) (rest ++ v) (Starts-append b s rest v h) (Whole-append rest v w k)

-- The complete prefix of a longer string is that of its beginning, and that of what is left then.
pub utf8_complete_prefix-append :
    (s x : List ℕ)
    → utf8_complete_prefix (s ++ x)
      ≡ utf8_complete_prefix s + utf8_complete_prefix (drop (utf8_complete_prefix s) (s ++ x))
unfolding utf8_complete_prefix
utf8_complete_prefix-append s x =
    let r = utf8_complete_prefix s in
    let c = utf8_complete_prefix-Complete s in
    let t = drop r (s ++ x) in
    let n = utf8_complete_prefix t in
    let k = utf8_complete_prefix-Complete t in
    let u = take r s ++ take n t in
    let behind : t ≡ drop r s ++ x = drop-append r s x c.within in
    let whole : u ++ drop n t ≡ s ++ x =
      append_assoc (take r s) (take n t) (drop n t)
      ∙ ap (◌++◌ (take r s)) (take-append-drop n t ∙ behind)
      ∙ sym (append_assoc (take r s) (drop r s) x)
      ∙ ap (λ w. w ++ x) (take-append-drop r s) in
    let size : length u ≡ r + n = omega (
      arith,
      length-append (take r s) (take n t),
      length-take r s,
      length-take n t,
      c.within,
      k.within,
    ) in
    ap (λ w. complete_from (length (s ++ x)) 0 w) (sym whole)
    ∙ complete_from-Whole u (drop n t) (length (s ++ x)) 0
        (Whole-append (take r s) (take n t) c.whole k.whole) k.stuck
        (omega (arith, ap length whole))
    ∙ omega (arith, size)
