-- ===== src/Chat/Parser/Stream.antt =====
-- However the text is cut into pieces, the parser ends with what it makes of the whole text.
use helios_glm53flash.Prelude.{
  subst, ℕ, ◌≡◌, refl, sym, ap, ◌∙◌, inl, inr, Bool, true, false, List, [], ◌∷◌, ◌++◌, length,
  concat, arith,
}
use mathlib.Core.List.{append_assoc, append-nil}
use helios_glm53flash.Chat.Calls.{JsonLib}
use helios_glm53flash.Chat.Parser.{
  OutputParser, start_parser, drain, drain_from, feed, end_open_call, finish, parse_output,
}
use helios_glm53flash.Chat.Parser.Rounds.{put, left_from}
use helios_glm53flash.Chat.Parser.Flushed.{flushed}
use helios_glm53flash.Chat.Parser.Chunks.{drain_Agree}

module _ {J : Type 0} (lib : JsonLib J) where
  -- The pieces are fed one after the other.
  abbrev pub feed_all : List (List ℕ) → OutputParser → OutputParser
  feed_all [] p = p
  feed_all (piece ∷ pieces) p = feed_all pieces (feed lib piece p).0

  feed_going :
      (piece : List ℕ) (p : OutputParser)
      → p.done ≡ false
      → (feed lib piece p).0
        ≡ left_from lib (length (p.buf ++ piece)) false (put (p.buf ++ piece) p)
  unfolding feed drain
  feed_going piece p going =
      let b = p.buf ++ piece in
      subst
        (λ d.
          (feed lib piece (record p { done = d })).0
          ≡ left_from lib (length b) false (record p { buf = b; done = d }))
        (sym going) refl

  feed_all_done :
      (pieces : List (List ℕ)) (p : OutputParser) → p.done ≡ true → feed_all pieces p ≡ p
  unfolding feed
  feed_all_done [] p ended = refl
  feed_all_done (piece ∷ pieces) p ended =
      let same : (feed lib piece p).0 ≡ p =
        subst (λ d. (feed lib piece (record p { done = d })).0 ≡ record p { done = d }) (sym ended)
          refl in
      ap (feed_all pieces) same ∙ feed_all_done pieces p ended

  flushed_empty : (p : OutputParser) → p.buf ≡ [] → flushed lib p.buf p ≡ p
  unfolding drain_from
  flushed_empty p e = subst (λ b. flushed lib b p ≡ put b p) (sym e) refl

  feed_all-flushed :
      (pieces : List (List ℕ)) (p : OutputParser)
      → p.done ≡ false
      → (drain lib true (feed_all pieces p)).0 ≡ flushed lib (p.buf ++ concat pieces) p
  unfolding drain
  feed_all-flushed [] p going = ap (λ b. flushed lib b p) (sym (append-nil p.buf))
  feed_all-flushed (piece ∷ pieces) p going =
      let b = p.buf ++ piece in
      let q = left_from lib (length b) false (put b p) in
      ap (λ r. (drain lib true (feed_all pieces r)).0) (feed_going piece p going)
      ∙ elim (drain_Agree lib (length b) b (concat pieces) p (omega arith) going) [
        | inl (ended, empty, same) ↦
            ap (λ r. (drain lib true r).0) (feed_all_done pieces q ended)
            ∙ flushed_empty q empty
            ∙ sym same
        | inr (goes, same) ↦ feed_all-flushed pieces q goes ∙ sym same
      ]
      ∙ ap (λ u. flushed lib u p) (append_assoc p.buf piece (concat pieces))

  -- Feeding the pieces one after the other and finishing gives what `parse_output` makes of the joined text.
  pub parse_output-feed_all :
      (pieces : List (List ℕ)) (start_in_think : Bool)
      → (finish lib (feed_all pieces (start_parser start_in_think))).0.out
        ≡ parse_output lib (concat pieces) start_in_think
  unfolding finish parse_output start_parser
  parse_output-feed_all pieces start_in_think =
      let start = start_parser start_in_think in
      let text = concat pieces in
      ap (λ q. (end_open_call lib q).0.out)
        (feed_all-flushed pieces start refl
          ∙ ap (λ u. flushed lib u start) (sym (append-nil text))
          ∙ sym (feed_all-flushed (text ∷ []) start refl))
