-- ===== src/Chat/Parser/Rounds.antt =====
-- The rounds of `drain`, one by one: enough fuel is enough, and what a round does on each branch.
use helios_glm53flash.Prelude.{
  same_words, ℕ, suc, ◌+◌, ◌-◌, ◌≤◌, ◌<◌, ◌≡◌, refl, sym, inl, inr, Bool, true, false, List, [],
  ◌∷◌, ◌++◌, Option, none, some, arith, length, take, drop, ltb, ◌&&◌, if◌then◌else◌, Bool-cases,
  All,
}
use helios_glm53flash.Chat.{
  tool_end, holdback_len, observation, eos, end_turn, user_turn, assistant_turn, system_turn,
}
use helios_glm53flash.Chat.Find.{find_tag, sooner, offer, earliest_of}
use helios_glm53flash.Chat.Calls.{JsonLib}
use helios_glm53flash.Chat.Parser.{
  OutputParser, add_text, ends_turn, pass_mark, drain_marks, end_call, drain_from,
}

-- What holds of a tag that is found: where it is, and that it is one of the tags.
pub record FoundTag (P : List ℕ → Type 0) (limit : ℕ) (s : List ℕ) (best : ℕ × List ℕ)
    : Type 0 where
  pub found : find_tag best.1 s ≡ some best.0
  pub within : best.0 < limit
  pub is_tag : P best.1

abbrev FoundIf : (List ℕ → Type 0) → ℕ → List ℕ → Option (ℕ × List ℕ) → Type 0
FoundIf P limit s o = (best : ℕ × List ℕ) → o ≡ some best → FoundTag P limit s best

offer-FoundIf :
    (P : List ℕ → Type 0) (limit : ℕ) (s tag : List ℕ) (o : Option ℕ) (best : Option (ℕ × List ℕ))
    → P tag
    → find_tag tag s ≡ o
    → FoundIf P limit s best
    → FoundIf P limit s (offer limit tag o best)
unfolding offer
offer-FoundIf P limit s tag none best h e before = before
offer-FoundIf P limit s tag (some f) best h e before =
    elim (Bool-cases (ltb f limit && sooner f best)) [
      | inr not_better ↦ rw not_better before
      | inl better ↦ rw better (λ b same.
          let pos : f ≡ b.0 = cc in
          let name : tag ≡ b.1 = cc in
          record {
            found = rw (sym pos, sym name) e;
            within = ground arith;
            is_tag = rw (sym name) h;
          })
    ]

pub earliest_of-FoundIf :
    (P : List ℕ → Type 0) (limit : ℕ) (s : List ℕ) (tags : List (List ℕ))
    (best : Option (ℕ × List ℕ))
    → All P tags
    → FoundIf P limit s best
    → FoundIf P limit s (earliest_of limit s tags best)
unfolding earliest_of
earliest_of-FoundIf P limit s [] best h before = before
earliest_of-FoundIf P limit s (tag ∷ tags) best (h, hs) before =
    earliest_of-FoundIf P limit s tags (offer limit tag (find_tag tag s) best) hs
      (offer-FoundIf P limit s tag (find_tag tag s) best h refl before)

abbrev pub put : List ℕ → OutputParser → OutputParser
put b p = record p { buf = b }

-- What a tag of `drain` does: it ends the turn, or leaves the buffer.
pub record Mark (tag : List ℕ) : Type 0 where
  pub some_bytes : 1 ≤ length tag
  pub stops :
      ends_turn tag ≡ true
      → (p : OutputParser) → pass_mark tag p ≡ record p { done = true; buf = [] }
  pub goes_on :
      ends_turn tag ≡ false
      → (b : List ℕ) (p : OutputParser)
      → (pass_mark tag (put b p) ≡ put b (pass_mark tag p)) × ((pass_mark tag p).done ≡ p.done)

stopping :
    (tag : List ℕ)
    → 1 ≤ length tag
    → ends_turn tag ≡ true
    → ((p : OutputParser) → pass_mark tag p ≡ record p { done = true; buf = [] })
    → Mark tag
stopping tag h e passes = record {
  some_bytes = h;
  stops = λ e' p. passes p;
  goes_on = λ e' b p. absurd (cc (e, e'));
}

pub drain_marks-Mark : All Mark drain_marks
unfolding ends_turn pass_mark same_words
drain_marks-Mark = (
  record {
    some_bytes = omega arith;
    stops = λ e p. absurd (cc e);
    goes_on = λ e b p. (refl, refl);
  },
  (
    record {
      some_bytes = omega arith;
      stops = λ e p. absurd (cc e);
      goes_on = λ e b p. (refl, refl);
    },
    (
      stopping observation (omega arith) refl (λ p. refl),
      (
        stopping eos (omega arith) refl (λ p. refl),
        (
          stopping end_turn (omega arith) refl (λ p. refl),
          (
            stopping user_turn (omega arith) refl (λ p. refl),
            (
              stopping assistant_turn (omega arith) refl (λ p. refl),
              (stopping system_turn (omega arith) refl (λ p. refl), tt),
            ),
          ),
        ),
      ),
    ),
  ),
)

module _ {J : Type 0} (lib : JsonLib J) where
  -- The state that the loop leaves.
  abbrev pub left_from : ℕ → Bool → OutputParser → OutputParser
  left_from fuel flush p = (drain_from lib fuel flush p).0

  -- The limit of a round.
  abbrev pub limit_in : Bool → List ℕ → ℕ
  limit_in flush b = length b - (if flush then 0 else holdback_len b)

  -- The call in the buffer, up to its end tag at `e`.
  abbrev pub call_read : ℕ → OutputParser → OutputParser
  call_read e p =
      end_call lib (record p {
        tool_body = p.tool_body ++ take e p.buf;
        buf = drop (e + length tool_end) p.buf;
      })

  abbrev pub open_read : ℕ → OutputParser → OutputParser
  open_read limit p = record p {
    tool_body = p.tool_body ++ take limit p.buf;
    buf = drop limit p.buf;
  }

  abbrev pub text_read : ℕ → OutputParser → OutputParser
  text_read limit p = put (drop limit p.buf) (add_text (take limit p.buf) p)

  abbrev pub mark_read : ℕ × List ℕ → OutputParser → OutputParser
  mark_read best p =
      pass_mark best.1 (put (drop (best.0 + length best.1) p.buf) (add_text (take best.0 p.buf) p))

  -- A state inside a tool call, and one outside, with a buffer.
  abbrev pub inside : List ℕ → OutputParser → OutputParser
  inside b p = record p { buf = b; in_tool = true }

  abbrev pub outside : List ℕ → OutputParser → OutputParser
  outside b p = record p { buf = b; in_tool = false }

  module _ (fuel : ℕ) (flush : Bool) (c : ℕ) (s : List ℕ) (p : OutputParser) where
    pub round-call_read :
        (e : ℕ)
        → find_tag tool_end (c ∷ s) ≡ some e
        → left_from (suc fuel) flush (inside (c ∷ s) p)
          ≡ left_from fuel flush (call_read e (inside (c ∷ s) p))
    unfolding drain_from
    round-call_read e found = rw (left_from, drain_from, found) refl

    pub round-open_read :
        find_tag tool_end (c ∷ s) ≡ none
        → left_from (suc fuel) flush (inside (c ∷ s) p)
          ≡ open_read (limit_in flush (c ∷ s)) (inside (c ∷ s) p)
    unfolding drain_from
    round-open_read missing = rw (left_from, drain_from, missing) refl

    pub round-text_read :
        earliest_of (limit_in flush (c ∷ s)) (c ∷ s) drain_marks none ≡ none
        → left_from (suc fuel) flush (outside (c ∷ s) p)
          ≡ text_read (limit_in flush (c ∷ s)) (outside (c ∷ s) p)
    unfolding drain_from
    round-text_read missing = rw (left_from, drain_from, missing) refl

    pub round-stop :
        (best : ℕ × List ℕ)
        → earliest_of (limit_in flush (c ∷ s)) (c ∷ s) drain_marks none ≡ some best
        → ends_turn best.1 ≡ true
        → left_from (suc fuel) flush (outside (c ∷ s) p) ≡ mark_read best (outside (c ∷ s) p)
    unfolding drain_from
    round-stop best found ends = rw (left_from, drain_from, found, ends) refl

    pub round-mark_read :
        (best : ℕ × List ℕ)
        → earliest_of (limit_in flush (c ∷ s)) (c ∷ s) drain_marks none ≡ some best
        → ends_turn best.1 ≡ false
        → left_from (suc fuel) flush (outside (c ∷ s) p)
          ≡ left_from fuel flush (mark_read best (outside (c ∷ s) p))
    unfolding drain_from
    round-mark_read best found goes = rw (left_from, drain_from, found, goes) refl
