-- ===== src/Chat/Render.antt =====
-- The prompt, render_chat of src/core/chat.cpp. An outer none is a throw of the JSON library.
use helios_glm53flash.Prelude.{
  ◌>>=◌, ℕ, suc, ◌-◌, Bool, false, ◌&&◌, ◌||◌, not, List, [], ◌∷◌, ◌++◌, Option, none, some, codes,
  leb, if◌then◌else◌, same_words,
}
use helios_glm53flash.Chat.Json.{
  object, array, Json, Items, Members, JsonText, dump_pretty, get_member, string_of, boolean_of,
}
use helios_glm53flash.Chat.Calls.{strip_ws}
use helios_glm53flash.Chat.Turns.{ChatMsg, tool_run, block_results, write_results}
use helios_glm53flash.Chat.Parser.{ToolCall}

-- `toupper` of the C locale
abbrev pub to_upper : ℕ → ℕ
to_upper c = if leb 0x61 c && leb c 0x7a then c - 32 else c

unfoldable pub cap_first : List ℕ → List ℕ
cap_first [] = []
cap_first (c ∷ s) = to_upper c ∷ s

unfoldable pub tool_function : Json → Json
unfolding get_member
tool_function tool = elim (get_member (codes "function") tool) [ none ↦ tool | some fn ↦ fn ]

unfoldable pub is_deferred : Json → Bool
unfolding get_member boolean_of
is_deferred fn = elim (get_member (codes "defer_loading") fn) [
  | none ↦ false
  | some v ↦ elim (boolean_of v) [ none ↦ false | some b ↦ b ]
]

-- The functions of the tools, without the deferred ones.
unfoldable pub shown_tools : Items → List Json
unfolding tool_function is_deferred
shown_tools Items.no_items = []
shown_tools (Items.item t tools) =
    let rest = shown_tools tools in
    if is_deferred (tool_function t) then rest else tool_function t ∷ rest

-- The loop over the members; the keys of an object are distinct.
unfoldable pub clean_members : Members → Members
clean_members Members.no_members = Members.no_members
clean_members (Members.member key v members) =
    let rest = clean_members members in
    if same_words key (codes "strict") || same_words key (codes "defer_loading")
    then rest
    else Members.member key v rest

-- `it.key()` throws where the function is no object and has something to visit.
unfoldable pub clean_tool : Json → Option Json
unfolding clean_members
clean_tool (Json.object members) = some (Json.object (clean_members members))
clean_tool Json.null = some (Json.object Members.no_members)
clean_tool (Json.array Items.no_items) = some (Json.object Members.no_members)
clean_tool (Json.array (Items.item v items)) = none
clean_tool (Json.boolean b) = none
clean_tool (Json.number n) = none
clean_tool (Json.string s) = none

-- Line feeds of the template.
abbrev pub lf : List ℕ
lf = 0x0a ∷ []

abbrev pub tools_open : List ℕ
tools_open =
    codes "<|system|>"
    ++ (lf
        ++ (codes "# Tools"
            ++ (lf
                ++ (lf
                    ++ (codes "You may call one or more functions to assist with the user query."
                        ++ (lf
                            ++ (lf
                                ++ (codes
                                      "You are provided with function signatures within <tools></tools> XML tags:"
                                    ++ (lf ++ (codes "<tools>" ++ lf))))))))))

abbrev pub tools_close : List ℕ
tools_close =
    codes "</tools>"
    ++ (lf
        ++ (lf
            ++ (codes
                  "For each function call, output the function name and arguments within the following XML format:"
                ++ (lf
                    ++ codes
                        "<tool_call>{function-name}<arg_key>{arg-key-1}</arg_key><arg_value>{arg-value-1}</arg_value><arg_key>{arg-key-2}</arg_key><arg_value>{arg-value-2}</arg_value>...</tool_call>"))))

-- `last_user + 1`
unfoldable pub after_last_user : ℕ → List ChatMsg → ℕ → ℕ
after_last_user i [] last = last
after_last_user i (m ∷ msgs) last =
    after_last_user (suc i) msgs (if same_words m.role (codes "user") then suc i else last)

module _ (lib : JsonText) where
  unfoldable pub write_members : Members → List ℕ
  unfolding dump_pretty string_of
  write_members Members.no_members = []
  write_members (Members.member key v members) =
      codes "<arg_key>"
      ++ (key
          ++ (codes "</arg_key><arg_value>"
              ++ (elim (string_of v) [ none ↦ dump_pretty lib v | some s ↦ s ]
                  ++ (codes "</arg_value>" ++ write_members members))))

  -- The arguments that render_chat reads: an object, and the empty one for everything else.
  unfoldable pub arguments_of : List ℕ → Members
  arguments_of text = elim (lib.parse (if same_words text [] then codes "{}" else text)) [
    | none ↦ Members.no_members
    | some v ↦ elim v [ object members ↦ members | _ ↦ Members.no_members ]
  ]

  unfoldable pub write_calls : List ToolCall → List ℕ
  unfolding write_members arguments_of
  write_calls [] = []
  write_calls (tc ∷ calls) =
      codes "<tool_call>"
      ++ (tc.name
          ++ (write_members (arguments_of tc.arguments)
              ++ (codes "</tool_call>" ++ write_calls calls)))

  unfoldable pub write_tools : List Json → Option (List ℕ)
  unfolding clean_tool
  write_tools [] = some []
  write_tools (fn ∷ shown) = do
    clean ← clean_tool fn
    rest ← write_tools shown
    some (dump_pretty lib clean ++ (lf ++ rest))

  unfoldable pub tools_block : Json → Option (List ℕ)
  unfolding shown_tools write_tools
  tools_block tools = elim tools [
    | array items ↦ elim (shown_tools items) [
      | [] ↦ some []
      | ◌∷◌ fn shown ↦ do
        lines ← write_tools (fn ∷ shown)
        some (tools_open ++ (lines ++ tools_close))
    ]
    | _ ↦ some []
  ]

  unfoldable pub write_assistant : Bool → ChatMsg → List ℕ
  unfolding write_calls strip_ws
  write_assistant current m =
      codes "<|assistant|>"
      ++ ((if current && not (same_words m.reasoning [])
            then codes "<think>" ++ (m.reasoning ++ codes "</think>")
            else codes "<think></think>")
          ++ (strip_ws m.content ++ write_calls m.tool_calls))

  abbrev pub is_tool : Option ChatMsg → Bool
  is_tool none = false
  is_tool (some m) = same_words m.role (codes "tool")

  -- The loop over the messages from index `i`, with the message before.
  unfoldable pub write_messages : ℕ → ℕ → Option ChatMsg → List ChatMsg → List ℕ
  unfolding write_assistant tool_run block_results write_results
  write_messages after_user i prev [] = []
  write_messages after_user i prev (m ∷ msgs) =
      let rest = write_messages after_user (suc i) (some m) msgs in
      if same_words m.role (codes "user")
      then codes "<|user|>" ++ (m.content ++ rest)
      else if same_words m.role (codes "system")
      then codes "<|system|>" ++ (m.content ++ rest)
      else if same_words m.role (codes "assistant")
      then write_assistant (leb after_user i) m ++ rest
      else if same_words m.role (codes "tool") && not (is_tool prev)
      then codes "<|observation|>"
        ++ (write_results (block_results prev (tool_run (m ∷ msgs))) ++ rest)
      else rest

  unfoldable pub render_chat : List ChatMsg → Json → List ℕ → Bool → Bool → Option (List ℕ)
  unfolding cap_first tools_block write_messages after_last_user
  render_chat msgs tools effort add_generation_prompt thinking = do
    block ← tools_block tools
    let eff =
        if same_words effort (codes "low") || same_words effort (codes "high")
        then effort
        else codes "max"
    some (
        codes "[gMASK]<sop><|system|>Reasoning Effort: "
        ++ (cap_first eff
            ++ (block
                ++ (write_messages (after_last_user 0 msgs 0) 0 none msgs
                    ++ (if add_generation_prompt
                        then (if thinking
                            then codes "<|assistant|><think>"
                            else codes "<|assistant|><think></think>")
                        else [])))))
