-- ===== src/Chat/ParserTests.antt =====
-- The output parser at a text with reasoning, content and a tool call, cut inside a tag.
use helios_glm53flash.Prelude.{
  ℕ, ◌≡◌, refl, true, false, List, [], ◌∷◌, ◌++◌, none, codes, concat, same_words,
}
use helios_glm53flash.Chat.Calls.{
  digits_before, strip_back, strip_front, strip_ws, next_argument, arguments_from, JsonLib,
  args_to_json, tool_name_of, tool_id_for,
}
use helios_glm53flash.Chat.Parser.{
  text_delta, with_text, ends_turn, pass_mark, call_delta, call_of, end_call, end_open_call,
  drain_from, drain, OutputParser, start_parser, feed, finish, parse_output,
}
use helios_glm53flash.Chat.Find.{find_from, find_tag, begins_with, earliest_of, offer}
use helios_glm53flash.Chat.Parser.Stream.{feed_all, parse_output-feed_all}
use helios_glm53flash.Chat.Parser.Deltas.{gather, feed-finish-gather}

-- Members as `key=value;`.
abbrev members : List (List ℕ × List ℕ) → List ℕ
members [] = []
members ((k, v) ∷ args) = k ++ (codes "=" ++ (v ++ (codes ";" ++ members args)))

-- A library in which every value is a string.
abbrev strings : JsonLib (List ℕ)
strings = record { parse = λ text. none; of_string = λ text. text; dump_object = members }

-- What the parser has when the whole of a text waits in its buffer.
abbrev waiting : OutputParser
waiting = record (start_parser true) { buf = codes "a</think>b<tool_call>f</tool_call><|user|>c" }

parsed_test : (finish strings waiting).0.out ≡ record {
  reasoning = codes "a";
  content = codes "b";
  tool_calls = record { id = codes "call_0"; name = codes "f"; arguments = codes "" } ∷ [];
}
unfolding finish drain drain_from end_open_call start_parser end_call call_of call_delta
    args_to_json arguments_from next_argument find_from find_tag begins_with tool_name_of strip_ws
    strip_front strip_back tool_id_for digits_before earliest_of offer pass_mark ends_turn with_text
    text_delta same_words
parsed_test = refl

abbrev pieces : List (List ℕ)
pieces = codes "hm</thi" ∷ codes "nk>o" ∷ codes "k<tool_" ∷ codes "call>f</tool_call>" ∷ []

parse_output-feed_all_example :
    (finish strings (feed_all strings pieces (start_parser true))).0.out
    ≡ parse_output strings (concat pieces) true
parse_output-feed_all_example = parse_output-feed_all strings pieces true

feed-finish-gather_example :
    ((feed strings (codes "k<tool_") (start_parser false)).0.out
      ≡ gather (feed strings (codes "k<tool_") (start_parser false)).1 (start_parser false).out)
    × ((finish strings (start_parser false)).0.out
        ≡ gather (finish strings (start_parser false)).1 (start_parser false).out)
feed-finish-gather_example = feed-finish-gather strings (codes "k<tool_") (start_parser false)
