-- ===== src/Chat/Parser/Flushed.antt =====
-- Draining a whole buffer, with nothing held back: what is read first.
use helios_glm53flash.Prelude.{
  ℕ, zero, suc, ◌+◌, ◌-◌, ◌≤◌, ◌≡◌, refl, sym, ap, subst, ◌∙◌, inl, inr, Bool, true, false, List,
  [], ◌∷◌, ◌++◌, none, some, arith, length, take, drop, length-drop, take_of_length-le,
  drop_of_length-le, Bool-cases, Option-cases,
}
use mathlib.Core.List.{append_assoc, append-nil}
use helios_glm53flash.Chat.{tool_end}
use helios_glm53flash.Chat.Find.{find_tag, earliest_of}
use helios_glm53flash.Chat.Calls.{JsonLib}
use helios_glm53flash.Chat.Parser.{
  ParsedOutput, OutputParser, add_text, with_text, ends_turn, pass_mark, drain_marks, end_call,
  drain_from,
}
use helios_glm53flash.Chat.Parser.Rounds.{
  FoundTag, earliest_of-FoundIf, put, Mark, drain_marks-Mark, left_from, limit_in, call_read,
  mark_read, inside, outside, round-call_read, round-open_read, round-text_read, round-stop,
  round-mark_read,
}

-- A statement of a state, from the states inside and outside a tool call.
pub modes :
    (P : OutputParser → Type 0) (p : OutputParser)
    → P (record p { in_tool = true })
    → P (record p { in_tool = false })
    → P p
modes P p tool text = elim (Bool-cases p.in_tool) [
  | inl e ↦ subst (λ b. P (record p { in_tool = b })) (sym e) tool
  | inr e ↦ subst (λ b. P (record p { in_tool = b })) (sym e) text
]

with_text-nil : (b : Bool) (out : ParsedOutput) → with_text b [] out ≡ out
unfolding with_text
with_text-nil true out = ap (λ r. record out { reasoning = r }) (append-nil out.reasoning)
with_text-nil false out = ap (λ r. record out { content = r }) (append-nil out.content)

with_text-append :
    (b : Bool) (s x : List ℕ) (out : ParsedOutput)
    → with_text b (s ++ x) out ≡ with_text b x (with_text b s out)
unfolding with_text
with_text-append true s x out =
    ap (λ r. record out { reasoning = r }) (sym (append_assoc out.reasoning s x))
with_text-append false s x out =
    ap (λ r. record out { content = r }) (sym (append_assoc out.content s x))

add_text-nil : (p : OutputParser) → add_text [] p ≡ p
add_text-nil p = ap (λ o. record p { out = o }) (with_text-nil p.in_think p.out)

pub add_text-append :
    (s x : List ℕ) (p : OutputParser) → add_text (s ++ x) p ≡ add_text x (add_text s p)
add_text-append s x p = ap (λ o. record p { out = o }) (with_text-append p.in_think s x p.out)

-- The tag that a round finds, with what it does.
pub found_tag :
    (limit : ℕ) (s : List ℕ) (best : ℕ × List ℕ)
    → earliest_of limit s drain_marks none ≡ some best
    → FoundTag Mark limit s best
found_tag limit s best e =
    earliest_of-FoundIf Mark limit s drain_marks none drain_marks-Mark (λ b e'. absurd (cc e')) best
      e

module _ {J : Type 0} (lib : JsonLib J) where
  -- Enough fuel is enough.
  pub left_from_enough :
      (f g : ℕ) (flush : Bool) (b : List ℕ) (p : OutputParser)
      → length b ≤ f
      → length b ≤ g
      → left_from lib f flush (put b p) ≡ left_from lib g flush (put b p)
  unfolding drain_from end_call
  left_from_enough zero zero flush [] p hf hg = refl
  left_from_enough zero (suc g) flush [] p hf hg = refl
  left_from_enough (suc f) zero flush [] p hf hg = refl
  left_from_enough (suc f) (suc g) flush [] p hf hg = refl
  left_from_enough zero g flush (c ∷ s) p hf hg = absurd (omega arith)
  left_from_enough (suc f) zero flush (c ∷ s) p hf hg = absurd (omega arith)
  left_from_enough (suc f) (suc g) flush (c ∷ s) p hf hg =
      modes
        (λ q.
          left_from lib (suc f) flush (put (c ∷ s) q) ≡ left_from lib (suc g) flush (put (c ∷ s) q))
        p
        (elim (Option-cases (find_tag tool_end (c ∷ s))) [
          | inl missing ↦
              round-open_read lib f flush c s p missing
              ∙ sym (round-open_read lib g flush c s p missing)
          | inr (e, found) ↦
              let size = length-drop (e + length tool_end) (c ∷ s) in
              round-call_read lib f flush c s p e found
              ∙ left_from_enough f g flush (drop (e + length tool_end) (c ∷ s))
                  (call_read lib e (inside lib (c ∷ s) p)) (omega arith) (omega arith)
              ∙ sym (round-call_read lib g flush c s p e found)
        ])
        (elim (Option-cases (earliest_of (limit_in lib flush (c ∷ s)) (c ∷ s) drain_marks none)) [
          | inl missing ↦
              round-text_read lib f flush c s p missing
              ∙ sym (round-text_read lib g flush c s p missing)
          | inr (best, found) ↦ elim (Bool-cases (ends_turn best.1)) [
            | inl ends ↦
                round-stop lib f flush c s p best found ends
                ∙ sym (round-stop lib g flush c s p best found ends)
            | inr goes ↦
                let tag = found_tag (limit_in lib flush (c ∷ s)) (c ∷ s) best found in
                let rest = drop (best.0 + length best.1) (c ∷ s) in
                let size = length-drop (best.0 + length best.1) (c ∷ s) in
                let some_bytes = tag.is_tag.some_bytes in
                let next =
                  pass_mark best.1 (add_text (take best.0 (c ∷ s)) (outside lib (c ∷ s) p)) in
                let e : mark_read lib best (outside lib (c ∷ s) p) ≡ put rest next =
                  (tag.is_tag.goes_on goes rest
                    (add_text (take best.0 (c ∷ s)) (outside lib (c ∷ s) p))).0 in
                round-mark_read lib f flush c s p best found goes
                ∙ ap (left_from lib f flush) e
                ∙ left_from_enough f g flush rest next (omega arith) (omega arith)
                ∙ sym (ap (left_from lib g flush) e)
                ∙ sym (round-mark_read lib g flush c s p best found goes)
          ]
        ])

  -- Draining all of a buffer, to its end.
  abbrev pub flushed : List ℕ → OutputParser → OutputParser
  flushed b p = left_from lib (length b) true (put b p)

  pub flushed_call :
      (b : List ℕ) (p : OutputParser) (e : ℕ)
      → find_tag tool_end b ≡ some e
      → flushed b (inside lib [] p)
        ≡ flushed
            (drop (e + length tool_end) b)
            (end_call lib (record p { in_tool = true; tool_body = p.tool_body ++ take e b }))
  unfolding end_call find_tag
  flushed_call [] p e found = absurd (cc found)
  flushed_call (c ∷ s) p e found =
      let size = length-drop (e + length tool_end) (c ∷ s) in
      round-call_read lib (length s) true c s p e found
      ∙ left_from_enough (length s) (length (drop (e + length tool_end) (c ∷ s))) true
          (drop (e + length tool_end) (c ∷ s)) (call_read lib e (inside lib (c ∷ s) p))
          (omega arith) (omega arith)

  pub flushed_open :
      (b : List ℕ) (p : OutputParser)
      → find_tag tool_end b ≡ none
      → flushed b (inside lib [] p)
        ≡ record p { in_tool = true; tool_body = p.tool_body ++ b; buf = [] }
  unfolding drain_from
  flushed_open [] p missing =
      ap (λ t. record p { in_tool = true; tool_body = t; buf = [] }) (sym (append-nil p.tool_body))
  flushed_open (c ∷ s) p missing =
      round-open_read lib (length s) true c s p missing
      ∙ all_read (length (c ∷ s) - 0) (omega arith)
    where
      all_read :
          (n : ℕ)
          → length (c ∷ s) ≤ n
          → record p {
            in_tool = true;
            tool_body = p.tool_body ++ take n (c ∷ s);
            buf = drop n (c ∷ s);
          }
            ≡ record p { in_tool = true; tool_body = p.tool_body ++ (c ∷ s); buf = [] }
      all_read n h = rw (take_of_length-le n (c ∷ s) h, drop_of_length-le n (c ∷ s) h) refl

  -- Nothing is held back.
  whole_limit :
      (b : List ℕ)
      → earliest_of (length b - 0) b drain_marks none ≡ earliest_of (length b) b drain_marks none
  whole_limit b =
      let e : length b - 0 ≡ length b = omega arith in ap (λ n. earliest_of n b drain_marks none) e

  pub flushed_text :
      (b : List ℕ) (p : OutputParser)
      → earliest_of (length b) b drain_marks none ≡ none
      → flushed b (outside lib [] p) ≡ put [] (add_text b (outside lib [] p))
  unfolding drain_from
  flushed_text [] p missing = sym (add_text-nil (outside lib [] p))
  flushed_text (c ∷ s) p missing =
      round-text_read lib (length s) true c s p (whole_limit (c ∷ s) ∙ missing)
      ∙ all_read (length (c ∷ s) - 0) (omega arith)
    where
      all_read :
          (n : ℕ)
          → length (c ∷ s) ≤ n
          → put (drop n (c ∷ s)) (add_text (take n (c ∷ s)) (outside lib [] p))
            ≡ put [] (add_text (c ∷ s) (outside lib [] p))
      all_read n h = rw (take_of_length-le n (c ∷ s) h, drop_of_length-le n (c ∷ s) h) refl

  pub flushed_stop :
      (b : List ℕ) (p : OutputParser) (best : ℕ × List ℕ)
      → earliest_of (length b) b drain_marks none ≡ some best
      → ends_turn best.1 ≡ true
      → flushed b (outside lib [] p)
        ≡ record (add_text (take best.0 b) (outside lib [] p)) { done = true; buf = [] }
  unfolding earliest_of
  flushed_stop [] p best found ends = absurd (cc found)
  flushed_stop (c ∷ s) p best found ends =
      let tag = found_tag (length (c ∷ s)) (c ∷ s) best found in
      round-stop lib (length s) true c s p best (whole_limit (c ∷ s) ∙ found) ends
      ∙ tag.is_tag.stops ends _

  pub flushed_mark :
      (b : List ℕ) (p : OutputParser) (best : ℕ × List ℕ)
      → earliest_of (length b) b drain_marks none ≡ some best
      → ends_turn best.1 ≡ false
      → flushed b (outside lib [] p)
        ≡ flushed
            (drop (best.0 + length best.1) b)
            (pass_mark best.1 (add_text (take best.0 b) (outside lib [] p)))
  unfolding earliest_of
  flushed_mark [] p best found goes = absurd (cc found)
  flushed_mark (c ∷ s) p best found goes =
      let tag = found_tag (length (c ∷ s)) (c ∷ s) best found in
      let rest = drop (best.0 + length best.1) (c ∷ s) in
      let size = length-drop (best.0 + length best.1) (c ∷ s) in
      let some_bytes = tag.is_tag.some_bytes in
      let next = pass_mark best.1 (add_text (take best.0 (c ∷ s)) (outside lib (c ∷ s) p)) in
      let state = pass_mark best.1 (add_text (take best.0 (c ∷ s)) (outside lib [] p)) in
      let e : mark_read lib best (outside lib (c ∷ s) p) ≡ put rest state =
        (tag.is_tag.goes_on goes rest (add_text (take best.0 (c ∷ s)) (outside lib [] p))).0 in
      round-mark_read lib (length s) true c s p best (whole_limit (c ∷ s) ∙ found) goes
      ∙ ap (left_from lib (length s) true) e
      ∙ left_from_enough (length s) (length rest) true rest state (omega arith) (omega arith)
