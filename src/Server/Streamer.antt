-- ===== src/Server/Streamer.antt =====
-- Utf8Streamer: what was emitted for the tokens so far is the complete prefix of their text, and so the
-- parser of the completions handler reads that prefix.
use helios_glm53flash.Prelude.{
  take-nil, ℕ, ◌+◌, ◌≤◌, ◌≡◌, refl, sym, ap, ◌∙◌, inl, inr, true, false, List, [], ◌∷◌, ◌++◌, arith,
  length, take, drop, concat, drop_of_length-le, drop-append, take-append, take-add, length-drop,
  leb, ◌==◌, Bool-cases,
}
use mathlib.Core.List.{append_assoc, append-nil}
use helios_glm53flash.Utf8.{utf8_seq_len, complete_from, utf8_complete_prefix}
use helios_glm53flash.Utf8.Complete.{utf8_complete_prefix-Complete}
use helios_glm53flash.Utf8.Resume.{utf8_complete_prefix-append}
use helios_glm53flash.Tokenizer.Vocab.{Tokenizer}
use helios_glm53flash.Tokenizer.Codec.{decode}
use helios_glm53flash.Tokenizer.Codec.Pieces.{decode-append}
use helios_glm53flash.Chat.Calls.{JsonLib}
use helios_glm53flash.Chat.Parser.{OutputParser, start_parser, feed, finish, parse_output}
use helios_glm53flash.Chat.Parser.Stream.{feed_all, parse_output-feed_all}
use helios_glm53flash.Server.{emit_whole, push, feed_tokens, text_output}

empty_prefix : utf8_complete_prefix [] ≡ 0
unfolding utf8_complete_prefix complete_from
empty_prefix = refl

stray_prefix : (b : ℕ) (s : List ℕ) → utf8_seq_len b ≡ 0 → utf8_complete_prefix (b ∷ s) ≡ 0
unfolding utf8_complete_prefix complete_from
stray_prefix b s stray =
    let test : (utf8_seq_len b == 0) ≡ true = ap (λ n. n == 0) stray in rw test refl

-- From the complete prefix of a text, the streamer goes on to that of a longer text.
emit_whole_lem :
    (s x : List ℕ)
    → let r = emit_whole (s ++ x) (utf8_complete_prefix s) in
      (r.1 ≡ utf8_complete_prefix (s ++ x))
      × (take (utf8_complete_prefix s) s ++ r.0 ≡ take (utf8_complete_prefix (s ++ x)) (s ++ x))
unfolding emit_whole
emit_whole_lem s x =
    let prev = utf8_complete_prefix s in
    let fresh = drop prev (s ++ x) in
    let n = utf8_complete_prefix fresh in
    let total = utf8_complete_prefix-append s x in
    let before = take-append prev s x (utf8_complete_prefix-Complete s).within in
    let joined =
      ap (λ t. t ++ take n fresh) (sym before)
      ∙ take-add prev n (s ++ x)
      ∙ ap (λ k. take k (s ++ x)) (sym total) in
    elim (Bool-cases (leb (length (s ++ x)) prev)) [
      | inl nothing_new ↦
          let none_left : fresh ≡ [] = drop_of_length-le prev (s ++ x) (ground arith) in
          let none_more : n ≡ 0 = ap utf8_complete_prefix none_left ∙ empty_prefix in
          let same : utf8_complete_prefix (s ++ x) ≡ prev = omega (arith, total, none_more) in
          rw nothing_new
            (sym same, append-nil (take prev s) ∙ sym before ∙ ap (λ k. take k (s ++ x)) (sym same))
      | inr news ↦ rw news (sym total, joined)
    ]

module _ (tk : Tokenizer) where
  abbrev pub text_of : List ℕ → List ℕ
  text_of ids = decode tk true ids

  -- The whole characters of the text of the tokens.
  abbrev pub whole_text : List ℕ → List ℕ
  whole_text ids = take (utf8_complete_prefix (text_of ids)) (text_of ids)

  -- The pieces that are not empty, for the tokens after `ids`.
  unfoldable pub pieces_after : List ℕ → List ℕ → ℕ → List (List ℕ)
  pieces_after ids [] prev = []
  pieces_after ids (tok ∷ toks) prev =
      let pushed = push tk (ids ++ (tok ∷ [])) prev in
      let later = pieces_after (ids ++ (tok ∷ [])) toks pushed.1 in
      elim pushed.0 [ [] ↦ later | ◌∷◌ c piece ↦ (c ∷ piece) ∷ later ]

  -- A push that finds the streamer at the complete prefix leaves it at that of the longer text.
  push_lem :
      (ids more : List ℕ) (prev : ℕ)
      → prev ≡ utf8_complete_prefix (text_of ids)
      → ((push tk (ids ++ more) prev).1 ≡ utf8_complete_prefix (text_of (ids ++ more)))
        × (whole_text ids ++ (push tk (ids ++ more) prev).0 ≡ whole_text (ids ++ more))
  unfolding push
  push_lem ids more prev at =
      rw (at, decode-append tk ids more) (emit_whole_lem (text_of ids) (text_of more))

  pieces_after_lem :
      (ids toks : List ℕ) (prev : ℕ)
      → prev ≡ utf8_complete_prefix (text_of ids)
      → whole_text ids ++ concat (pieces_after ids toks prev) ≡ whole_text (ids ++ toks)
  unfolding pieces_after
  pieces_after_lem ids [] prev at =
      append-nil (whole_text ids) ∙ ap whole_text (sym (append-nil ids))
  pieces_after_lem ids (tok ∷ toks) prev at =
      let next = ids ++ (tok ∷ []) in
      let pushed = push tk next prev in
      let (now, piece) = push_lem ids (tok ∷ []) prev at in
      let later = pieces_after next toks pushed.1 in
      let rest = pieces_after_lem next toks pushed.1 now in
      ap (◌++◌ (whole_text ids)) (kept pushed.0 later)
      ∙ sym (append_assoc (whole_text ids) pushed.0 (concat later))
      ∙ ap (λ t. t ++ concat later) piece
      ∙ rest
      ∙ ap whole_text (append_assoc ids (tok ∷ []) toks)
    where
      kept :
          (piece : List ℕ) (later : List (List ℕ))
          → concat (elim piece [ [] ↦ later | ◌∷◌ c t ↦ (c ∷ t) ∷ later ]) ≡ piece ++ concat later
      kept [] later = refl
      kept (c ∷ t) later = refl

  -- The pieces that the streamer emits for the tokens of a generation join to the complete prefix of the
  -- tokens' text: no character is split, lost or emitted twice.
  pub pieces_after-whole_text : (toks : List ℕ) → concat (pieces_after [] toks 0) ≡ whole_text toks
  unfolding decode
  pieces_after-whole_text toks =
      let none_yet : whole_text [] ≡ [] = take-nil (utf8_complete_prefix []) in
      ap (λ t. t ++ concat (pieces_after [] toks 0)) (sym none_yet)
      ∙ pieces_after_lem [] toks 0 (sym empty_prefix)

  -- Once the bytes that were not emitted start with a byte that starts no character, no later token emits
  -- anything: the streamer stays where it is, whatever follows.
  pub push_stuck :
      (ids more : List ℕ) (prev b : ℕ) (rest : List ℕ)
      → drop prev (text_of ids) ≡ b ∷ rest
      → utf8_seq_len b ≡ 0
      → push tk (ids ++ more) prev ≡ ([], prev)
  unfolding push emit_whole
  push_stuck ids more prev b rest left stray =
      let bytes = text_of (ids ++ more) in
      let within : prev ≤ length (text_of ids) =
        omega (arith, length-drop prev (text_of ids), ap length left) in
      let fresh : drop prev bytes ≡ b ∷ (rest ++ text_of more) =
        ap (drop prev) (decode-append tk ids more)
        ∙ drop-append prev (text_of ids) (text_of more) within
        ∙ ap (λ t. t ++ text_of more) left in
      let none_whole : utf8_complete_prefix (drop prev bytes) ≡ 0 =
        ap utf8_complete_prefix fresh ∙ stray_prefix b (rest ++ text_of more) stray in
      elim (Bool-cases (leb (length bytes) prev)) [
        | inl nothing_new ↦ rw nothing_new refl
        | inr news ↦ let stays : prev + 0 ≡ prev = omega arith in rw (news, none_whole, stays) refl
      ]

module _ {J : Type 0} (lib : JsonLib J) (tk : Tokenizer) where
  feed_tokens-feed_all :
      (ids toks : List ℕ) (prev : ℕ) (p : OutputParser)
      → feed_tokens lib tk ids toks prev p ≡ feed_all lib (pieces_after tk ids toks prev) p
  unfolding feed_tokens pieces_after
  feed_tokens-feed_all ids [] prev p = refl
  feed_tokens-feed_all ids (tok ∷ toks) prev p =
      let pushed = push tk (ids ++ (tok ∷ [])) prev in
      feed_tokens-feed_all (ids ++ (tok ∷ [])) toks pushed.1
        (elim pushed.0 [ [] ↦ p | ◌∷◌ c piece ↦ (feed lib (c ∷ piece) p).0 ])
      ∙ sym (fed pushed.0 (pieces_after tk (ids ++ (tok ∷ [])) toks pushed.1))
    where
      fed :
          (piece : List ℕ) (later : List (List ℕ))
          → feed_all lib (elim piece [ [] ↦ later | ◌∷◌ c t ↦ (c ∷ t) ∷ later ]) p
            ≡ feed_all lib later (elim piece [ [] ↦ p | ◌∷◌ c t ↦ (feed lib (c ∷ t) p).0 ])
      fed [] later = refl
      fed (c ∷ t) later = refl

  -- The output of the completions handler is what `parse_output` makes of the complete prefix of the text
  -- of the tokens.
  pub text_output-parse_output :
      (toks : List ℕ) → text_output lib tk toks ≡ parse_output lib (whole_text tk toks) false
  unfolding text_output
  text_output-parse_output toks =
      ap (λ p. (finish lib p).0.out) (feed_tokens-feed_all [] toks 0 (start_parser false))
      ∙ parse_output-feed_all lib (pieces_after tk [] toks 0) false
      ∙ ap (λ t. parse_output lib t false) (pieces_after-whole_text tk toks)
