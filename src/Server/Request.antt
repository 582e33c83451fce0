-- ===== src/Server/Request.antt =====
-- Reading a request: parse_common and parse_chat (src/engine/server.cpp). Sampling parameters are
-- floating point and left out.
use helios_glm53flash.Prelude.{
  ℕ, Bool, true, ◌||◌, List, [], ◌∷◌, Option, none, some, codes, ltb, ◌==◌, if◌then◌else◌,
  same_words,
}
use helios_glm53flash.Chat.Json.{Json, Items, get_member, string_of, array, string, number}
use helios_glm53flash.Chat.Parser.{ToolCall}
use helios_glm53flash.Chat.Turns.{ChatMsg}
use helios_glm53flash.Server.Reading.{
  Reading, ◌>>=◌, value_string, string_at, boolean_at, or_else, chat_content_text,
}

pub record GenParams : Type 0 where
  pub max_tokens : ℕ
  pub stop : List (List ℕ)

unfoldable pub stop_strings : Items → List (List ℕ)
unfolding string_of
stop_strings Items.no_items = []
stop_strings (Items.item v items) =
    let rest = stop_strings items in elim (string_of v) [ none ↦ rest | some s ↦ s ∷ rest ]

unfoldable pub stops_of : Option Json → List (List ℕ)
unfolding stop_strings
stops_of none = []
stops_of (some v) = elim v [ string s ↦ s ∷ [] | array items ↦ stop_strings items | _ ↦ [] ]

-- `is_number` and `get<int>`; what is below 0 counts as 0, since the code asks for more only.
unfoldable pub int_at : (List ℕ → ℕ) → List ℕ → Json → Option ℕ
unfolding get_member
int_at to_int key j = elim (get_member key j) [
  | none ↦ none
  | some v ↦ elim v [ number n ↦ some (to_int n) | _ ↦ none ]
]

-- The server's options that a request falls back to, and the library's reading of a number.
pub record Defaults : Type 0 where
  pub max_tokens : ℕ
  pub reasoning_effort : List ℕ
  pub to_int : List ℕ → ℕ

unfoldable pub parse_common : Defaults → Json → Reading GenParams
unfolding int_at stops_of
parse_common opts body =
    let asked = or_else (int_at opts.to_int (codes "max_tokens") body) opts.max_tokens in
    if ltb 1 (or_else (int_at opts.to_int (codes "n") body) 0)
    then Reading.refused (codes "n > 1 is not supported")
    else Reading.accepted (record {
      max_tokens = if asked == 0 then opts.max_tokens else asked;
      stop = stops_of (get_member (codes "stop") body);
    })

pub record ChatRequest : Type 0 where
  pub image_urls : List (List ℕ)
  pub msgs : List ChatMsg
  pub tools : Json
  pub reasoning_effort : List ℕ
  pub thinking : Bool
  pub tools_off : Bool
  pub gen : GenParams

abbrev pub is_effort : List ℕ → Bool
is_effort s =
    same_words s (codes "low") || (same_words s (codes "high") || same_words s (codes "max"))

-- The arguments of a call: a string as it is, another value dumped.
unfoldable pub arguments_text : (Json → List ℕ) → Option Json → List ℕ
unfolding string_of
arguments_text dump none = []
arguments_text dump (some a) = elim (string_of a) [ none ↦ dump a | some s ↦ s ]

unfoldable pub read_call : (Json → List ℕ) → Json → Reading ToolCall
unfolding value_string arguments_text
read_call dump tc = do
  id ← value_string (codes "id") [] tc
  elim (get_member (codes "function") tc) [
    | none ↦ Reading.accepted (record { id = id; name = []; arguments = [] })
    | some fn ↦ do
      name ← value_string (codes "name") [] fn
      Reading.accepted (record {
        id = id;
        name = name;
        arguments = arguments_text dump (get_member (codes "arguments") fn);
      })
  ]

unfoldable pub read_calls : (Json → List ℕ) → Items → Reading (List ToolCall)
unfolding read_call
read_calls dump Items.no_items = Reading.accepted []
read_calls dump (Items.item tc items) = do
  call ← read_call dump tc
  calls ← read_calls dump items
  Reading.accepted (call ∷ calls)

abbrev pub items_of : Option Json → Items
items_of none = Items.no_items
items_of (some v) = elim v [ array items ↦ items | _ ↦ Items.no_items ]

-- One message, with the image URLs collected before.
unfoldable pub read_message :
    (Json → List ℕ) → Json → List (List ℕ) → Reading (ChatMsg × List (List ℕ))
unfolding value_string chat_content_text string_at read_calls
read_message dump m urls = do
  role ← value_string (codes "role") (codes "user") m
  content ← chat_content_text (or_else (get_member (codes "content") m) (Json.string [])) urls
  calls ← read_calls dump (items_of (get_member (codes "tool_calls") m))
  Reading.accepted (
    record {
      role = role;
      content = content.text;
      reasoning = or_else (string_at (codes "reasoning_content") m) [];
      tool_calls = calls;
      tool_call_id = or_else (string_at (codes "tool_call_id") m) [];
    },
    content.image_urls,
  )

unfoldable pub read_messages :
    (Json → List ℕ) → Items → List (List ℕ) → Reading (List ChatMsg × List (List ℕ))
unfolding read_message
read_messages dump Items.no_items urls = Reading.accepted ([], urls)
read_messages dump (Items.item m items) urls = do
  first ← read_message dump m urls
  rest ← read_messages dump items first.1
  Reading.accepted (first.0 ∷ rest.0, rest.1)

-- The effort of the request if it is one of the three, else the server's; then that of
-- `chat_template_kwargs`, which is not looked at again.
unfoldable pub effort_of : Defaults → Json → Json → List ℕ
unfolding string_at
effort_of opts body kwargs =
    let asked = or_else (string_at (codes "reasoning_effort") body) opts.reasoning_effort in
    or_else (string_at (codes "reasoning_effort") kwargs)
      (if is_effort asked then asked else opts.reasoning_effort)

-- The later of the four switches wins.
unfoldable pub thinking_of : Json → Json → Bool
unfolding boolean_at
thinking_of body kwargs = or_else (boolean_at (codes "thinking") body) (
    or_else (boolean_at (codes "enable_thinking") body) (
      or_else (boolean_at (codes "thinking") kwargs)
        (or_else (boolean_at (codes "enable_thinking") kwargs) true)))

unfoldable pub parse_chat : Defaults → (Json → List ℕ) → Json → Reading ChatRequest
unfolding read_messages effort_of thinking_of parse_common
parse_chat opts dump body = elim (get_member (codes "messages") body) [
  | none ↦ Reading.refused (codes "messages is required")
  | some v ↦ elim v [
    | array items ↦
        let tools = items_of (get_member (codes "tools") body) in
        let kwargs = or_else (get_member (codes "chat_template_kwargs") body) Json.null in
        let no_choice =
          same_words (or_else (string_at (codes "tool_choice") body) []) (codes "none") in
        do
          read ← read_messages dump items []
          gen ← parse_common opts body
          Reading.accepted (record {
            image_urls = read.1;
            msgs = read.0;
            tools = Json.array tools;
            reasoning_effort = effort_of opts body kwargs;
            thinking = thinking_of body kwargs;
            tools_off = elim tools [ Items.no_items ↦ true | Items.item v vs ↦ no_choice ];
            gen = gen;
          })
    | _ ↦ Reading.refused (codes "messages is required")
  ]
]
