-- ===== src/Server/Tests.antt =====
-- The streamer at a character that is split between two tokens, and the request reader at a message with
-- an image.
use helios_glm53flash.Prelude.{
  All, ap, arith, same_words, length, ℕ, ◌≡◌, refl, true, false, List, [], ◌∷◌, none, some, concat,
  codes, drop,
}
use helios_glm53flash.Utf8.{utf8_seq_len}
use helios_glm53flash.Tokenizer.Template.{
  Plain, apply_chat_template, render_chat-apply_chat_template,
}
use helios_glm53flash.Tokenizer.Vocab.{find_in, Tokenizer}
use helios_glm53flash.Tokenizer.Symbols.{s2b_below, s2b, dec_cp, b2s}
use helios_glm53flash.Tokenizer.Codec.{decode_token, id_text, decode}
use helios_glm53flash.Chat.Json.{string_of, find_member, get_member, JsonText, Json, Items, Members}
use helios_glm53flash.Chat.Calls.{JsonLib}
use helios_glm53flash.Chat.Parser.{ToolCall, parse_output}
use helios_glm53flash.Chat.Render.{render_chat}
use helios_glm53flash.Chat.Turns.{
  block_results, order_of, ordered_results, results_of, all_match, called, have_ids, ChatMsg,
}
use helios_glm53flash.Chat.Turns.Results.{In, calls_before, DistinctCalls}
use helios_glm53flash.Chat.Turns.Order.{Answered, Grouped, block_results-Grouped}
use helios_glm53flash.Server.{push, text_output}
use helios_glm53flash.Server.Streamer.{
  text_of, whole_text, pieces_after, pieces_after-whole_text, push_stuck, text_output-parse_output,
}
use helios_glm53flash.Server.Reading.{
  bad_part, value_string, object_part, content_part, content_parts, Reading, chat_content_text,
}

-- Tokens for the two bytes of U+00E9, and for a stray byte.
abbrev halves : Tokenizer
halves = record {
  tok_to_id = [];
  id_to_tok = b2s 0xc3 ∷ b2s 0xa9 ∷ b2s 0x80 ∷ [];
  merge_rank = [];
  added = [];
  added_map = [];
  eos = 0;
}

pieces_after-whole_text_example :
    concat (pieces_after halves [] (0 ∷ 1 ∷ []) 0) ≡ whole_text halves (0 ∷ 1 ∷ [])
pieces_after-whole_text_example = pieces_after-whole_text halves (0 ∷ 1 ∷ [])

stray_left : drop 0 (text_of halves (2 ∷ [])) ≡ 0x80 ∷ []
unfolding decode id_text find_in decode_token dec_cp s2b s2b_below b2s same_words
stray_left = refl

stray_byte : utf8_seq_len 0x80 ≡ 0
unfolding utf8_seq_len
stray_byte = refl

push_stuck_example : push halves (2 ∷ 0 ∷ 1 ∷ []) 0 ≡ ([], 0)
push_stuck_example = push_stuck halves (2 ∷ []) (0 ∷ 1 ∷ []) 0 0x80 [] stray_left stray_byte

-- A library that reads nothing.
abbrev blind : JsonLib (List ℕ)
blind = record { parse = λ text. none; of_string = λ text. text; dump_object = λ members. [] }

text_output-parse_output_example :
    text_output blind halves (0 ∷ 1 ∷ [])
    ≡ parse_output blind (whole_text halves (0 ∷ 1 ∷ [])) false
text_output-parse_output_example = text_output-parse_output blind halves (0 ∷ 1 ∷ [])

abbrev call : List ℕ → ToolCall
call id = record { id = id; name = codes "f"; arguments = [] }

abbrev result : List ℕ → ChatMsg
result id = record {
  role = codes "tool";
  content = id;
  reasoning = [];
  tool_calls = [];
  tool_call_id = id;
}

abbrev asking : ChatMsg
asking = record {
  role = codes "assistant";
  content = [];
  reasoning = [];
  tool_calls = call (codes "a") ∷ call (codes "b") ∷ [];
  tool_call_id = [];
}

reordered :
    block_results (some asking) (result (codes "b") ∷ result (codes "a") ∷ [])
    ≡ result (codes "a") ∷ result (codes "b") ∷ []
unfolding block_results order_of have_ids all_match called ordered_results results_of same_words
reordered = refl

abbrev first_byte : List ℕ → ℕ
first_byte [] = 0
first_byte (c ∷ s) = c

asking-DistinctCalls : DistinctCalls (calls_before (some asking))
asking-DistinctCalls = ((λ e. omega (arith, ap first_byte e), tt), (tt, tt))

abbrev two_results : List ChatMsg
two_results = result (codes "b") ∷ result (codes "a") ∷ []

block_results-Grouped_example :
    (length (block_results (some asking) two_results) ≡ 2)
    × ((m : ChatMsg) → In m two_results → In m (block_results (some asking) two_results))
    × (Answered (some asking) two_results
        → Grouped two_results asking.tool_calls (block_results (some asking) two_results))
    × (¬ Answered (some asking) two_results → block_results (some asking) two_results ≡ two_results)
block_results-Grouped_example = block_results-Grouped (some asking) two_results asking-DistinctCalls

abbrev scalars : JsonText
scalars = record { dump_scalar = λ j. []; parse = λ text. none }

abbrev asked : List ChatMsg
asked =
    record {
      role = codes "user";
      content = codes "hi";
      reasoning = [];
      tool_calls = [];
      tool_call_id = [];
    }
    ∷ []

asked-Plain : All Plain asked
unfolding same_words
asked-Plain = ((refl, refl, refl), tt)

render_chat-apply_chat_template_example :
    render_chat scalars asked Json.null (codes "low") true true
    ≡ some (apply_chat_template asked true (codes "low"))
render_chat-apply_chat_template_example =
    render_chat-apply_chat_template scalars asked (codes "low") true asked-Plain

-- A part with a type that is not known is refused.
refused_part :
    chat_content_text
      (Json.array (
        Items.item
          (Json.object
            (Members.member (codes "type") (Json.string (codes "audio")) Members.no_members))
          Items.no_items))
      []
    ≡ Reading.refused bad_part
unfolding chat_content_text content_parts content_part object_part value_string get_member
    find_member string_of same_words
refused_part = refl
