-- ===== src/Chat/Parser.antt =====
-- class OutputParser (src/core/chat.hpp and chat.cpp): the stream of the model's text is cut into
-- reasoning, content and tool calls. `pending_` is what the calls return, and `buf_` with the position
-- of `drain` is what is left of the buffer.
pub mod Held
pub mod Rounds
pub mod Flushed
pub mod Front
pub mod Agree
pub mod Chunks
pub mod Stream
pub mod Deltas
use helios_glm53flash.Prelude.{
  ℕ, zero, suc, ◌+◌, ◌-◌, Bool, true, false, ◌&&◌, ◌||◌, not, List, [], ◌∷◌, ◌++◌, Option, none,
  some, length, take, drop, if◌then◌else◌, same_words,
}
use helios_glm53flash.Chat.{
  think_end, tool_begin, tool_end, observation, eos, end_turn, user_turn, assistant_turn,
  system_turn, holdback_len,
}
use helios_glm53flash.Chat.Find.{find_tag, earliest_of}
use helios_glm53flash.Chat.Calls.{JsonLib, args_to_json, tool_name_of, tool_id_for}

pub record ToolCall : Type 0 where
  pub id : List ℕ
  pub name : List ℕ
  pub arguments : List ℕ

pub record ParsedOutput : Type 0 where
  pub reasoning : List ℕ
  pub content : List ℕ
  pub tool_calls : List ToolCall

pub record Delta : Type 0 where
  pub reasoning : List ℕ
  pub content : List ℕ
  pub tool_begins : Bool
  pub tool_name : List ℕ
  pub tool_call_id : List ℕ
  pub tool_args_fragment : List ℕ
  pub stop : Bool

pub record OutputParser : Type 0 where
  pub buf : List ℕ
  pub in_think : Bool
  pub in_tool : Bool
  pub done : Bool
  pub tool_body : List ℕ
  pub out : ParsedOutput

abbrev pub no_delta : Delta
no_delta = record {
  reasoning = [];
  content = [];
  tool_begins = false;
  tool_name = [];
  tool_call_id = [];
  tool_args_fragment = [];
  stop = false;
}

unfoldable pub start_parser : Bool → OutputParser
start_parser start_in_think = record {
  buf = [];
  in_think = start_in_think;
  in_tool = false;
  done = false;
  tool_body = [];
  out = record { reasoning = []; content = []; tool_calls = [] };
}

-- The text goes to the reasoning or to the content.
unfoldable pub with_text : Bool → List ℕ → ParsedOutput → ParsedOutput
with_text in_think text out =
    if in_think
    then record out { reasoning = out.reasoning ++ text }
    else record out { content = out.content ++ text }

abbrev pub add_text : List ℕ → OutputParser → OutputParser
add_text text p = record p { out = with_text p.in_think text p.out }

-- The delta of a text, if there is any.
unfoldable pub text_delta : Bool → List ℕ → List Delta
text_delta in_think [] = []
text_delta in_think (c ∷ text) =
    (if in_think
      then record no_delta { reasoning = c ∷ text }
      else record no_delta { content = c ∷ text })
    ∷ []

abbrev pub stop_delta : Delta
stop_delta = record no_delta { stop = true }

-- The tags that end the turn.
unfoldable pub ends_turn : List ℕ → Bool
ends_turn which =
    same_words which user_turn
    || (same_words which assistant_turn
        || (same_words which system_turn
            || (same_words which observation
                || (same_words which eos || same_words which end_turn))))

-- What a tag does to the state.
unfoldable pub pass_mark : List ℕ → OutputParser → OutputParser
unfolding ends_turn
pass_mark which p =
    if same_words which think_end
    then record p { in_think = false }
    else if same_words which tool_begin
    then record p { in_tool = true; tool_body = [] }
    else if ends_turn which
    then record p { done = true; buf = [] }
    else p

-- The tags that `drain` looks for outside a tool call.
abbrev pub drain_marks : List (List ℕ)
drain_marks =
    think_end ∷ tool_begin ∷ observation ∷ eos ∷ end_turn ∷ user_turn ∷ assistant_turn ∷ system_turn
    ∷ []

module _ {J : Type 0} (lib : JsonLib J) where
  -- The call in `tool_body_`, with the number of calls before it.
  unfoldable pub call_of : OutputParser → ToolCall
  unfolding args_to_json tool_name_of tool_id_for
  call_of p = record {
    id = tool_id_for (length p.out.tool_calls);
    name = tool_name_of p.tool_body;
    arguments = args_to_json lib p.tool_body;
  }

  unfoldable pub call_delta : OutputParser → Delta
  unfolding call_of
  call_delta p =
      let tc = call_of p in
      record no_delta {
        tool_begins = true;
        tool_name = tc.name;
        tool_call_id = tc.id;
        tool_args_fragment = tc.arguments;
      }

  unfoldable pub end_call : OutputParser → OutputParser
  unfolding call_of
  end_call p = record p {
    tool_body = [];
    in_tool = false;
    out = record p.out { tool_calls = p.out.tool_calls ++ (call_of p ∷ []) };
  }

  -- The loop of `drain`. A round passes a byte at least, so as much fuel as bytes is enough.
  unfoldable pub drain_from : ℕ → Bool → OutputParser → OutputParser × List Delta
  drain_from zero flush p = (p, [])
  drain_from (suc fuel) flush p = elim p.buf [
    | [] ↦ (p, [])
    | ◌∷◌ c s ↦
        let keep = if flush then 0 else holdback_len p.buf in
        let limit = length p.buf - keep in
        elim p.in_tool [
          | true ↦ elim (find_tag tool_end p.buf) [
            | none ↦ (
              record p { tool_body = p.tool_body ++ take limit p.buf; buf = drop limit p.buf },
              [],
            )
            | some end ↦
                let q = record p {
                  tool_body = p.tool_body ++ take end p.buf;
                  buf = drop (end + length tool_end) p.buf;
                } in
                let rest = drain_from fuel flush (end_call q) in (rest.0, call_delta q ∷ rest.1)
          ]
          | false ↦ elim (earliest_of limit p.buf drain_marks none) [
            | none ↦ (
              record (add_text (take limit p.buf) p) { buf = drop limit p.buf },
              text_delta p.in_think (take limit p.buf),
            )
            | some best ↦
                let before = take best.0 p.buf in
                let q = record (add_text before p) { buf = drop (best.0 + length best.1) p.buf } in
                let here = text_delta p.in_think before in
                elim (ends_turn best.1) [
                  | true ↦ (pass_mark best.1 q, here ++ (stop_delta ∷ []))
                  | false ↦
                      let rest = drain_from fuel flush (pass_mark best.1 q) in
                      (rest.0, here ++ rest.1)
                ]
          ]
        ]
  ]

  unfoldable pub drain : Bool → OutputParser → OutputParser × List Delta
  unfolding drain_from
  drain flush p = drain_from (length p.buf) flush p

  unfoldable pub feed : List ℕ → OutputParser → OutputParser × List Delta
  unfolding drain
  feed piece p = elim p.done [
    | true ↦ (p, [])
    | false ↦ drain false (record p { buf = p.buf ++ piece })
  ]

  -- A call without its end is emitted as it is.
  unfoldable pub end_open_call : OutputParser → OutputParser × List Delta
  unfolding end_call call_delta
  end_open_call p = elim (p.in_tool && not (same_words p.tool_body [])) [
    | true ↦ (end_call p, call_delta p ∷ [])
    | false ↦ (p, [])
  ]

  unfoldable pub finish : OutputParser → OutputParser × List Delta
  unfolding drain end_open_call
  finish p =
      let drained = drain true p in
      let ended = end_open_call drained.0 in (ended.0, drained.1 ++ ended.1)

  unfoldable pub parse_output : List ℕ → Bool → ParsedOutput
  unfolding feed finish start_parser
  parse_output text start_in_think = (finish (feed text (start_parser start_in_think)).0).0.out
