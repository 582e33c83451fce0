-- ===== src/Server.antt =====
-- The part of the HTTP server between tokens and text (src/engine/server.cpp): the streamer that emits
-- whole characters only, the drivers that feed the parser, and what is reported as the reason of the end.
pub mod Streamer
pub mod Reading
pub mod Request
mod Tests
use helios_glm53flash.Prelude.{
  ℕ, zero, suc, ◌+◌, ◌-◌, Bool, true, false, ◌&&◌, not, List, [], ◌∷◌, ◌++◌, Option, none, some,
  length, take, drop, codes, leb, ltb, ◌==◌, if◌then◌else◌, same_words,
}
use helios_glm53flash.Utf8.{utf8_complete_prefix, utf8_sanitize}
use helios_glm53flash.Tokenizer.Vocab.{Tokenizer}
use helios_glm53flash.Tokenizer.Codec.{decode}
use helios_glm53flash.Chat.Calls.{JsonLib}
use helios_glm53flash.Chat.Parser.{
  ToolCall, ParsedOutput, Delta, OutputParser, start_parser, feed, finish,
}

-- What Utf8Streamer::push does with the bytes of all ids: the whole characters that were not emitted
-- yet, and `prev_` after them.
unfoldable pub emit_whole : List ℕ → ℕ → List ℕ × ℕ
emit_whole bytes prev =
    let fresh = drop prev bytes in
    let n = utf8_complete_prefix fresh in
    if leb (length bytes) prev then ([], prev) else (take n fresh, prev + n)

unfoldable pub push : Tokenizer → List ℕ → ℕ → List ℕ × ℕ
unfolding decode emit_whole
push tk all_ids prev = emit_whole (decode tk true all_ids) prev

-- `g_opts.api_key` and the header: none where the request has none.
unfoldable pub authorized : List ℕ → Option (List ℕ) → Bool
authorized [] header = true
authorized (c ∷ key) none = false
authorized (c ∷ key) (some value) = same_words value (codes "Bearer " ++ (c ∷ key))

-- `finish_reason`, with the context capacity and the position of the runner.
unfoldable pub finish_reason : ℕ → ℕ → ℕ → ℕ → List ℕ
finish_reason cap pos completion_tokens max_tokens =
    if leb max_tokens completion_tokens
    then codes "length"
    else if ltb 0 cap && leb cap pos
    then codes "length"
    else codes "stop"

pub record GenOutcome : Type 0 where
  pub reasoning : List ℕ
  pub content : List ℕ
  pub tool_calls : List ToolCall
  pub completion_tokens : ℕ
  pub hit_stop : Bool

-- What the answer gives as `finish_reason`.
unfoldable pub finish_of : ℕ → ℕ → ℕ → GenOutcome → List ℕ
unfolding finish_reason
finish_of cap pos max_tokens out = elim out.tool_calls [
  | ◌∷◌ tc calls ↦ codes "tool_calls"
  | [] ↦
      if out.hit_stop then codes "stop" else finish_reason cap pos out.completion_tokens max_tokens
]

-- What the loop over tokens keeps: the ids, the streamer's `prev_`, the parser, and the text that is
-- compared with the stop strings.
pub record Driver : Type 0 where
  pub ids : List ℕ
  pub prev : ℕ
  pub parser : OutputParser
  pub visible : List ℕ
  pub stop_hit : Bool

-- `visible` ends in a stop string that is not empty.
unfoldable pub ends_in_stop : List (List ℕ) → List ℕ → Bool
ends_in_stop [] visible = false
ends_in_stop (s ∷ stops) visible =
    let later = ends_in_stop stops visible in
    if not (same_words s [])
      && (leb (length s) (length visible)
          && same_words (drop (length visible - length s) visible) s)
    then true
    else later

module _ {J : Type 0} (lib : JsonLib J) where
  -- The loop over the deltas of a piece: the driver, what is emitted, and whether decoding goes on.
  unfoldable pub pass_deltas : List (List ℕ) → List Delta → Driver → List Delta × (Driver × Bool)
  unfolding ends_in_stop
  pass_deltas stops [] s = ([], (s, true))
  pass_deltas stops (d ∷ ds) s = elim d.stop [
    | true ↦ (d ∷ [], (record s { stop_hit = true }, false))
    | false ↦
        let seen = record s { visible = s.visible ++ d.content } in
        elim (not (same_words d.content []) && ends_in_stop stops seen.visible) [
          | true ↦ ([], (record seen { stop_hit = true }, false))
          | false ↦ let rest = pass_deltas stops ds seen in (d ∷ rest.0, rest.1)
        ]
  ]

  -- The callback of `runner.generate` for a client that stays.
  unfoldable pub on_token : Tokenizer → List (List ℕ) → ℕ → Driver → List Delta × (Driver × Bool)
  unfolding push pass_deltas
  on_token tk stops tok s =
      let ids = s.ids ++ (tok ∷ []) in
      let pushed = push tk ids s.prev in
      let noted = record s { ids = ids; prev = pushed.1 } in
      elim pushed.0 [
        | [] ↦ ([], (noted, true))
        | ◌∷◌ c piece ↦
            let fed = feed lib (c ∷ piece) s.parser in
            pass_deltas stops fed.1 (record noted { parser = fed.0 })
      ]

  -- The tokens that the runner hands over, until the callback ends the generation.
  unfoldable pub drive : Tokenizer → List (List ℕ) → List ℕ → Driver → List Delta × Driver
  unfolding on_token
  drive tk stops [] s = ([], s)
  drive tk stops (tok ∷ toks) s =
      let r = on_token tk stops tok s in
      elim r.1.1 [
        | false ↦ (r.0, r.1.0)
        | true ↦ let rest = drive tk stops toks r.1.0 in (r.0 ++ rest.0, rest.1)
      ]

  -- `generate`: what is emitted, and the outcome.
  unfoldable pub generate : Tokenizer → List (List ℕ) → Bool → List ℕ → List Delta × GenOutcome
  unfolding drive start_parser
  generate tk stops thinking toks =
      let start : Driver = record {
        ids = [];
        prev = 0;
        parser = start_parser thinking;
        visible = [];
        stop_hit = false;
      } in
      let driven = drive tk stops toks start in
      let ended = finish lib driven.1.parser in
      (
        driven.0 ++ ended.1,
        record {
          reasoning = utf8_sanitize ended.0.out.reasoning;
          content = utf8_sanitize ended.0.out.content;
          tool_calls = ended.0.out.tool_calls;
          completion_tokens = length driven.1.ids;
          hit_stop = driven.1.stop_hit;
        },
      )

  -- The callback of `text_handler`: every piece is fed, and decoding goes on.
  unfoldable pub feed_tokens : Tokenizer → List ℕ → List ℕ → ℕ → OutputParser → OutputParser
  unfolding push
  feed_tokens tk ids [] prev p = p
  feed_tokens tk ids (tok ∷ toks) prev p =
      let pushed = push tk (ids ++ (tok ∷ [])) prev in
      let next : OutputParser = elim pushed.0 [
        | [] ↦ p
        | ◌∷◌ c piece ↦ (feed lib (c ∷ piece) p).0
      ] in
      feed_tokens tk (ids ++ (tok ∷ [])) toks pushed.1 next

  -- The output of `text_handler` for the tokens that the runner hands over.
  unfoldable pub text_output : Tokenizer → List ℕ → ParsedOutput
  unfolding feed_tokens
  text_output tk toks = (finish lib (feed_tokens tk [] toks 0 (start_parser false))).0.out
