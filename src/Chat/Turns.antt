-- ===== src/Chat/Turns.antt =====
-- Messages, and the block that render_chat writes for a run of tool results (src/core/chat.cpp).
pub mod Results
pub mod Order
use helios_glm53flash.Prelude.{
  ℕ, zero, suc, ◌+◌, ◌-◌, Bool, true, false, ◌&&◌, ◌||◌, not, List, [], ◌∷◌, ◌++◌, Option, none,
  some, concat, length, codes, leb, if◌then◌else◌, same_words,
}
use helios_glm53flash.Chat.Json.{
  object, array, Json, Items, Members, JsonText, dump_pretty, find_member, get_member, string_of,
  boolean_of,
}
use helios_glm53flash.Chat.Calls.{strip_ws}
use helios_glm53flash.Chat.Parser.{ToolCall}

pub record ChatMsg : Type 0 where
  pub role : List ℕ
  pub content : List ℕ
  pub reasoning : List ℕ
  pub tool_calls : List ToolCall
  pub tool_call_id : List ℕ

-- A run of tool messages at the front.
unfoldable pub tool_run : List ChatMsg → List ChatMsg
tool_run [] = []
tool_run (m ∷ msgs) =
    let rest = tool_run msgs in if same_words m.role (codes "tool") then m ∷ rest else []

unfoldable pub have_ids : List ChatMsg → Bool
have_ids [] = true
have_ids (m ∷ run) = let rest = have_ids run in not (same_words m.tool_call_id []) && rest

unfoldable pub called : List ℕ → List ToolCall → Bool
called id [] = false
called id (tc ∷ calls) = let rest = called id calls in same_words tc.id id || rest

unfoldable pub all_match : List ChatMsg → List ToolCall → Bool
unfolding called
all_match [] calls = true
all_match (m ∷ run) calls = let rest = all_match run calls in called m.tool_call_id calls && rest

-- The results of one call, and of the calls in their order.
unfoldable pub results_of : List ℕ → List ChatMsg → List ChatMsg
results_of id [] = []
results_of id (m ∷ run) =
    let rest = results_of id run in if same_words m.tool_call_id id then m ∷ rest else rest

unfoldable pub ordered_results : List ToolCall → List ChatMsg → List ChatMsg
unfolding results_of
ordered_results [] run = []
ordered_results (tc ∷ calls) run = results_of tc.id run ++ ordered_results calls run

-- `order`: the calls of an assistant message before the run, if they name all its results.
unfoldable pub order_of : Option ChatMsg → List ChatMsg → Option (List ToolCall)
unfolding have_ids all_match
order_of none run = none
order_of (some m) run =
    if have_ids run && (same_words m.role (codes "assistant") && all_match run m.tool_calls)
    then (elim m.tool_calls [ [] ↦ none | ◌∷◌ tc calls ↦ some (tc ∷ calls) ])
    else none

-- The messages of the block, in the order in which they are written.
unfoldable pub block_results : Option ChatMsg → List ChatMsg → List ChatMsg
unfolding order_of ordered_results
block_results prev run = elim (order_of prev run) [
  | none ↦ run
  | some calls ↦ ordered_results calls run
]

unfoldable pub write_results : List ChatMsg → List ℕ
write_results [] = []
write_results (m ∷ run) =
    codes "<tool_response>" ++ (m.content ++ (codes "</tool_response>" ++ write_results run))
