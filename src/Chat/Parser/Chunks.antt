-- ===== src/Chat/Parser/Chunks.antt =====
-- Draining what is safe of a buffer, and later the rest with what follows, is draining it all.
use helios_glm53flash.Prelude.{
  ℕ, zero, suc, ◌+◌, ◌≤◌, ◌≡◌, refl, ap, ◌∙◌, inl, inr, true, false, List, [], ◌∷◌, ◌++◌, none,
  some, arith, length, take, drop, length-drop, take-append, drop-append, Bool-cases, Option-cases,
}
use helios_glm53flash.Chat.{tool_end}
use helios_glm53flash.Chat.Find.{find_tag, earliest_of}
use helios_glm53flash.Chat.Find.Extend.{find_tag-within, find_tag-append}
use helios_glm53flash.Chat.Calls.{JsonLib}
use helios_glm53flash.Chat.Parser.{
  OutputParser, add_text, ends_turn, pass_mark, drain_marks, end_call,
}
use helios_glm53flash.Chat.Parser.Held.{limit_of}
use helios_glm53flash.Chat.Parser.Rounds.{
  put, left_from, call_read, inside, outside, round-call_read, round-open_read, round-text_read,
  round-stop, round-mark_read,
}
use helios_glm53flash.Chat.Parser.Flushed.{modes, found_tag, flushed, flushed_call, flushed_mark}
use helios_glm53flash.Chat.Parser.Agree.{
  Agree, Agree-step, before_tag, longer_found, left_Agree, open_Agree, text_Agree, stop_Agree,
  left_nil,
}

module _ {J : Type 0} (lib : JsonLib J) where
  call_step :
      (b x : List ℕ) (p : OutputParser) (e : ℕ)
      → find_tag tool_end b ≡ some e
      → flushed lib (b ++ x) (inside lib [] p)
        ≡ flushed lib (drop (e + length tool_end) b ++ x) (call_read lib e (inside lib b p))
  unfolding end_call
  call_step b x p e found =
      let n = e + length tool_end in
      let fits = find_tag-within tool_end b e found in
      flushed_call lib (b ++ x) p e (find_tag-append tool_end b x e found)
      ∙ ap
          (λ t.
            flushed lib (drop n (b ++ x))
              (end_call lib (record p { in_tool = true; tool_body = p.tool_body ++ t })))
          (take-append e b x (omega arith))
      ∙ ap (λ u. flushed lib u (call_read lib e (inside lib b p))) (drop-append n b x fits)

  mark_step :
      (b x : List ℕ) (p : OutputParser) (best : ℕ × List ℕ)
      → earliest_of (limit_of b) b drain_marks none ≡ some best
      → ends_turn best.1 ≡ false
      → flushed lib (b ++ x) (outside lib [] p)
        ≡ flushed lib
            (drop (best.0 + length best.1) b ++ x)
            (pass_mark best.1 (add_text (take best.0 b) (outside lib [] p)))
  mark_step b x p best found goes =
      let n = best.0 + length best.1 in
      let (before, behind) = before_tag lib b x best found in
      flushed_mark lib (b ++ x) p best (longer_found lib b x best found) goes
      ∙ ap (λ t. flushed lib (drop n (b ++ x)) (pass_mark best.1 (add_text t (outside lib [] p))))
          before
      ∙ ap (λ u. flushed lib u (pass_mark best.1 (add_text (take best.0 b) (outside lib [] p))))
          behind

  pub drain_Agree :
      (fuel : ℕ) (b x : List ℕ) (p : OutputParser)
      → length b ≤ fuel
      → p.done ≡ false
      → Agree lib b p x (left_from lib fuel false (put b p))
  unfolding end_call
  drain_Agree fuel [] x p enough going =
      left_Agree lib [] x p (left_nil lib fuel false p) (inr (going, refl))
  drain_Agree zero (c ∷ s) x p enough going = absurd (omega arith)
  drain_Agree (suc fuel) (c ∷ s) x p enough going =
      modes
        (λ q.
          q.done ≡ false → Agree lib (c ∷ s) q x (left_from lib (suc fuel) false (put (c ∷ s) q)))
        p
        (λ g. elim (Option-cases (find_tag tool_end (c ∷ s))) [
          | inl missing ↦
              left_Agree lib (c ∷ s) x (inside lib [] p)
                (round-open_read lib fuel false c s p missing)
                (open_Agree lib (c ∷ s) x p g missing)
          | inr (e, found) ↦
              let rest = drop (e + length tool_end) (c ∷ s) in
              let size = length-drop (e + length tool_end) (c ∷ s) in
              let next = call_read lib e (inside lib (c ∷ s) p) in
              left_Agree lib (c ∷ s) x (inside lib [] p)
                (round-call_read lib fuel false c s p e found)
                (Agree-step lib (c ∷ s) rest (inside lib [] p) next x
                  (left_from lib fuel false (put rest next)) (call_step (c ∷ s) x p e found)
                  (drain_Agree fuel rest x next (omega arith) g))
        ])
        (λ g. elim (Option-cases (earliest_of (limit_of (c ∷ s)) (c ∷ s) drain_marks none)) [
          | inl missing ↦
              left_Agree lib (c ∷ s) x (outside lib [] p)
                (round-text_read lib fuel false c s p missing)
                (text_Agree lib (c ∷ s) x p g missing)
          | inr (best, found) ↦ elim (Bool-cases (ends_turn best.1)) [
            | inl ends ↦
                left_Agree lib (c ∷ s) x (outside lib [] p)
                  (round-stop lib fuel false c s p best found ends)
                  (stop_Agree lib (c ∷ s) x p best found ends)
            | inr goes ↦
                let tag = found_tag (limit_of (c ∷ s)) (c ∷ s) best found in
                let rest = drop (best.0 + length best.1) (c ∷ s) in
                let size = length-drop (best.0 + length best.1) (c ∷ s) in
                let some_bytes = tag.is_tag.some_bytes in
                let read = add_text (take best.0 (c ∷ s)) (outside lib [] p) in
                let next = pass_mark best.1 read in
                let kept = tag.is_tag.goes_on goes rest read in
                left_Agree lib (c ∷ s) x (outside lib [] p)
                  (round-mark_read lib fuel false c s p best found goes
                    ∙ ap (left_from lib fuel false) kept.0)
                  (Agree-step lib (c ∷ s) rest (outside lib [] p) next x
                    (left_from lib fuel false (put rest next))
                    (mark_step (c ∷ s) x p best found goes)
                    (drain_Agree fuel rest x next (omega arith) (kept.1 ∙ g)))
          ]
        ])
        going
