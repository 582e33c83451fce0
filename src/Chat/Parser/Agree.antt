-- ===== src/Chat/Parser/Agree.antt =====
-- What a round leaves agrees with draining the longer text at once, on the branches where the round is the last.
use helios_glm53flash.Prelude.{
  ℕ, zero, suc, ◌+◌, ◌≡◌, ◌⊎◌, refl, sym, ap, subst, ◌∙◌, inl, inr, Bool, true, false, List, [],
  ◌++◌, Option, none, some, arith, length, take, drop, length-take, length-append, take-append,
  drop-append, take-append-drop, ltb, Bool-cases, All,
}
use mathlib.Core.List.{append_assoc}
use helios_glm53flash.Chat.{tool_end}
use helios_glm53flash.Chat.Find.{find_tag, earliest_of}
use helios_glm53flash.Chat.Find.Extend.{below, find_tag-within, find_tag-below}
use helios_glm53flash.Chat.Find.Earliest.{
  clip, earliest_of-append, earliest_of-clip, earliest_of-none,
}
use helios_glm53flash.Chat.Calls.{JsonLib}
use helios_glm53flash.Chat.Parser.{OutputParser, add_text, ends_turn, drain_marks, drain_from}
use helios_glm53flash.Chat.Parser.Held.{limit_of, tool_end-SameBelow, drain_marks-SameBelow}
use helios_glm53flash.Chat.Parser.Rounds.{
  put, left_from, mark_read, open_read, text_read, inside, outside,
}
use helios_glm53flash.Chat.Parser.Flushed.{found_tag, flushed, flushed_stop}
use helios_glm53flash.Chat.Parser.Front.{flushed_body, flushed_front}

-- A tag found below a limit is found with a higher limit too.
clip-some :
    (limit : ℕ) (o : Option (ℕ × List ℕ)) (best : ℕ × List ℕ)
    → clip limit o ≡ some best
    → o ≡ some best
clip-some limit none best = λ h. absurd (cc h)
clip-some limit (some b) best = elim (Bool-cases (ltb b.0 limit)) [
  | inl within ↦ rw within (λ h. h)
  | inr beyond ↦ rw beyond (λ h. absurd (cc h))
]

-- The first bytes of the buffer, and what is held back with the text that follows.
cut_again : (n : ℕ) (b x : List ℕ) → take n b ++ (drop n b ++ x) ≡ b ++ x
cut_again n b x =
    sym (append_assoc (take n b) (drop n b) x) ∙ ap (λ s. s ++ x) (take-append-drop n b)

limit_within : (b : List ℕ) → length (take (limit_of b) b) ≡ limit_of b
limit_within b = omega (arith, length-take (limit_of b) b)

every_below :
    (limit n : ℕ) (s s' : List ℕ) (tags : List (List ℕ))
    → limit ≡ n
    → s ≡ s'
    → All (λ tag. below limit (find_tag tag s) ≡ none) tags
    → All (λ tag. below n (find_tag tag s') ≡ none) tags
every_below limit n s s' tags e es h =
    subst (λ k. All (λ tag. below k (find_tag tag s') ≡ none) tags) e
      (subst (λ t. All (λ tag. below limit (find_tag tag t) ≡ none) tags) es h)

module _ {J : Type 0} (lib : JsonLib J) where
  -- Draining what is safe, and then the rest with the text that follows, is draining it all: the turn
  -- ended before the text that follows, or the rest is drained with it.
  abbrev pub Agree : List ℕ → OutputParser → List ℕ → OutputParser → Type 0
  Agree b p x q =
      ((q.done ≡ true) × (q.buf ≡ []) × (flushed lib (b ++ x) p ≡ q))
      ⊎ ((q.done ≡ false) × (flushed lib (b ++ x) p ≡ flushed lib (q.buf ++ x) q))

  pub Agree-step :
      (b b' : List ℕ) (p p' : OutputParser) (x : List ℕ) (q : OutputParser)
      → flushed lib (b ++ x) p ≡ flushed lib (b' ++ x) p'
      → Agree b' p' x q
      → Agree b p x q
  Agree-step b b' p p' x q e (inl (ended, empty, same)) = inl (ended, empty, e ∙ same)
  Agree-step b b' p p' x q e (inr (goes, same)) = inr (goes, e ∙ same)

  -- The tag below the limit of the buffer is the first one of the longer text.
  pub longer_found :
      (b x : List ℕ) (best : ℕ × List ℕ)
      → earliest_of (limit_of b) b drain_marks none ≡ some best
      → earliest_of (length (b ++ x)) (b ++ x) drain_marks none ≡ some best
  longer_found b x best found =
      clip-some (limit_of b) (earliest_of (length (b ++ x)) (b ++ x) drain_marks none) best (
        earliest_of-clip (limit_of b) (length (b ++ x)) (b ++ x) drain_marks none
          (omega (arith, length-append b x))
        ∙ earliest_of-append (limit_of b) b x drain_marks none (omega arith)
            (drain_marks-SameBelow b x)
        ∙ found)

  -- What stands before a tag, and behind it, in the longer text.
  pub before_tag :
      (b x : List ℕ) (best : ℕ × List ℕ)
      → earliest_of (limit_of b) b drain_marks none ≡ some best
      → (take best.0 (b ++ x) ≡ take best.0 b)
        × (drop (best.0 + length best.1) (b ++ x) ≡ drop (best.0 + length best.1) b ++ x)
  before_tag b x best found =
      let tag = found_tag (limit_of b) b best found in
      let fits = find_tag-within best.1 b best.0 tag.found in
      (take-append best.0 b x (omega arith), drop-append (best.0 + length best.1) b x fits)

  pub left_nil :
      (fuel : ℕ) (flush : Bool) (p : OutputParser) → left_from lib fuel flush (put [] p) ≡ put [] p
  unfolding drain_from
  left_nil zero flush p = refl
  left_nil (suc fuel) flush p = refl

  pub left_Agree :
      (b x : List ℕ) (p : OutputParser) {q r : OutputParser} → q ≡ r → Agree b p x r → Agree b p x q
  left_Agree b x p e h = subst (Agree b p x) (sym e) h

  pub open_Agree :
      (b x : List ℕ) (p : OutputParser)
      → p.done ≡ false
      → find_tag tool_end b ≡ none
      → Agree b (inside lib b p) x (open_read lib (limit_of b) (inside lib b p))
  open_Agree b x p going missing =
      let limit = limit_of b in
      let whole = cut_again limit b x in
      let clear : below (length (take limit b))
            (find_tag tool_end (take limit b ++ (drop limit b ++ x)))
          ≡ none =
        rw (limit_within b, whole)
          (find_tag-below limit tool_end b x (omega arith) (tool_end-SameBelow b x)
            ∙ ap (below limit) missing) in
      inr (
        going,
        ap (λ u. flushed lib u (inside lib [] p)) (sym whole)
            ∙ flushed_body lib (take limit b) (drop limit b ++ x) p clear,
      )

  pub text_Agree :
      (b x : List ℕ) (p : OutputParser)
      → p.done ≡ false
      → earliest_of (limit_of b) b drain_marks none ≡ none
      → Agree b (outside lib b p) x (text_read lib (limit_of b) (outside lib b p))
  text_Agree b x p going missing =
      let limit = limit_of b in
      let whole = cut_again limit b x in
      let here = earliest_of-none limit (b ++ x) drain_marks none (
        earliest_of-append limit b x drain_marks none (omega arith) (drain_marks-SameBelow b x)
        ∙ missing) in
      let clear =
        every_below limit (length (take limit b)) (b ++ x) (take limit b ++ (drop limit b ++ x))
          drain_marks (sym (limit_within b)) (sym whole) here.1 in
      inr (
        going,
        ap (λ u. flushed lib u (outside lib [] p)) (sym whole)
            ∙ flushed_front lib (take limit b) (drop limit b ++ x) p clear,
      )

  pub stop_Agree :
      (b x : List ℕ) (p : OutputParser) (best : ℕ × List ℕ)
      → earliest_of (limit_of b) b drain_marks none ≡ some best
      → ends_turn best.1 ≡ true
      → Agree b (outside lib b p) x (mark_read lib best (outside lib b p))
  stop_Agree b x p best found ends =
      let tag = found_tag (limit_of b) b best found in
      let stopped =
        tag.is_tag.stops ends
          (put (drop (best.0 + length best.1) b) (add_text (take best.0 b) (outside lib b p))) in
      left_Agree b x (outside lib b p) stopped (
        inl (
          refl,
          refl,
          flushed_stop lib (b ++ x) p best (longer_found b x best found) ends
              ∙ ap {A = List ℕ}
                  (λ t. record (add_text t (outside lib [] p)) { done = true; buf = [] })
                  (before_tag b x best found).0,
        ))
