-- ===== src/Chat/Parser/Front.antt =====
-- Text in front of the first tag may be read before the rest.
use helios_glm53flash.Prelude.{
  ℕ, ◌+◌, ◌≡◌, sym, ap, ◌∙◌, inl, inr, true, List, [], ◌++◌, none, arith, length, take, drop,
  length-append, take-append_add, drop-append_add, Bool-cases, Option-cases, All,
}
use mathlib.Core.List.{append_assoc}
use helios_glm53flash.Chat.{tool_end}
use helios_glm53flash.Chat.Find.{find_tag, later_by, earliest_of}
use helios_glm53flash.Chat.Find.Extend.{below, find_tag-later}
use helios_glm53flash.Chat.Find.Earliest.{shifted, earliest_of-shifted}
use helios_glm53flash.Chat.Calls.{JsonLib}
use helios_glm53flash.Chat.Parser.{
  OutputParser, add_text, ends_turn, pass_mark, drain_marks, end_call,
}
use helios_glm53flash.Chat.Parser.Rounds.{put, inside, outside}
use helios_glm53flash.Chat.Parser.Flushed.{
  add_text-append, flushed, flushed_call, flushed_open, flushed_text, flushed_stop, flushed_mark,
}

module _ {J : Type 0} (lib : JsonLib J) where
  -- Text of a tool call before its end tag may be read before.
  pub flushed_body :
      (s x : List ℕ) (p : OutputParser)
      → below (length s) (find_tag tool_end (s ++ x)) ≡ none
      → flushed lib (s ++ x) (inside lib [] p)
        ≡ flushed lib x (inside lib [] (record p { tool_body = p.tool_body ++ s }))
  flushed_body s x p clear = elim (Option-cases (find_tag tool_end x)) [
    | inl missing ↦
        flushed_open lib (s ++ x) p
          (find_tag-later tool_end s x clear ∙ ap (later_by (length s)) missing)
        ∙ ap (λ t. record p { in_tool = true; tool_body = t; buf = [] })
            (sym (append_assoc p.tool_body s x))
        ∙ sym (flushed_open lib x (record p { tool_body = p.tool_body ++ s }) missing)
    | inr (e, found) ↦
        let place = length s + e in
        let n : place + length tool_end ≡ length s + (e + length tool_end) = omega arith in
        let left : drop (place + length tool_end) (s ++ x) ≡ drop (e + length tool_end) x =
          ap (λ k. drop k (s ++ x)) n ∙ drop-append_add s x (e + length tool_end) in
        let text : p.tool_body ++ take place (s ++ x) ≡ (p.tool_body ++ s) ++ take e x =
          ap (◌++◌ p.tool_body) (take-append_add s x e)
          ∙ sym (append_assoc p.tool_body s (take e x)) in
        flushed_call lib (s ++ x) p place
          (find_tag-later tool_end s x clear ∙ ap (later_by (length s)) found)
        ∙ ap
            (λ b. flushed lib b (
              end_call lib
                (record p { in_tool = true; tool_body = p.tool_body ++ take place (s ++ x) })))
            left
        ∙ ap
            (λ t.
              flushed lib (drop (e + length tool_end) x)
                (end_call lib (record p { in_tool = true; tool_body = t })))
            text
        ∙ sym (flushed_call lib x (record p { tool_body = p.tool_body ++ s }) e found)
  ]

  -- Text before the first tag may be read before.
  pub flushed_front :
      (s x : List ℕ) (p : OutputParser)
      → All (λ tag. below (length s) (find_tag tag (s ++ x)) ≡ none) drain_marks
      → flushed lib (s ++ x) (outside lib [] p) ≡ flushed lib x (outside lib [] (add_text s p))
  flushed_front s x p clear =
      let all : earliest_of (length (s ++ x)) (s ++ x) drain_marks none
          ≡ shifted (length s) (earliest_of (length x) x drain_marks none) =
        ap (λ n. earliest_of n (s ++ x) drain_marks none) (length-append s x)
        ∙ earliest_of-shifted (length x) s x drain_marks none clear in
      elim (Option-cases (earliest_of (length x) x drain_marks none)) [
        | inl missing ↦
            flushed_text lib (s ++ x) p (all ∙ ap (shifted (length s)) missing)
            ∙ ap (put []) (add_text-append s x (outside lib [] p))
            ∙ sym (flushed_text lib x (add_text s p) missing)
        | inr (best, found) ↦
            let later = all ∙ ap (shifted (length s)) found in
            let place = length s + best.0 in
            let n : place + length best.1 ≡ length s + (best.0 + length best.1) = omega arith in
            let left : drop (place + length best.1) (s ++ x) ≡ drop (best.0 + length best.1) x =
              ap (λ k. drop k (s ++ x)) n ∙ drop-append_add s x (best.0 + length best.1) in
            let text : add_text (take place (s ++ x)) (outside lib [] p)
                ≡ add_text (take best.0 x) (outside lib [] (add_text s p)) =
              ap (λ t. add_text t (outside lib [] p)) (take-append_add s x best.0)
              ∙ add_text-append s (take best.0 x) (outside lib [] p) in
            elim (Bool-cases (ends_turn best.1)) [
              | inl ends ↦
                  flushed_stop lib (s ++ x) p (place, best.1) later ends
                  ∙ ap {A = OutputParser} (λ q. record q { done = true; buf = [] }) text
                  ∙ sym (flushed_stop lib x (add_text s p) best found ends)
              | inr goes ↦
                  flushed_mark lib (s ++ x) p (place, best.1) later goes
                  ∙ ap
                      (λ b.
                        flushed lib b
                          (pass_mark best.1 (add_text (take place (s ++ x)) (outside lib [] p))))
                      left
                  ∙ ap (λ q. flushed lib (drop (best.0 + length best.1) x) (pass_mark best.1 q))
                      text
                  ∙ sym (flushed_mark lib x (add_text s p) best found goes)
            ]
      ]
