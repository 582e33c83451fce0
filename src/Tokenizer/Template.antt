-- ===== src/Tokenizer/Template.antt =====
-- Tokenizer::apply_chat_template (src/tokenizer/tokenizer.cpp), the prompt of messages without tools.
use helios_glm53flash.Prelude.{
  ℕ, suc, ◌≡◌, refl, sym, ap, ◌∙◌, inl, inr, Bool, true, false, ◌&&◌, ◌||◌, not, List, [], ◌∷◌,
  ◌++◌, Option, none, some, leb, codes, if◌then◌else◌, Bool-cases, All, same_words, same_words-eq,
}
use mathlib.Core.List.{append_assoc}
use helios_glm53flash.Chat.Json.{Json, JsonText}
use helios_glm53flash.Chat.Calls.{strip_ws}
use helios_glm53flash.Chat.Render.{
  cap_first, write_calls, write_assistant, write_messages, after_last_user, render_chat,
}
use helios_glm53flash.Chat.Turns.{ChatMsg}

-- The loop over the messages; the blanks that it strips are those of strip_ws.
unfoldable pub template_messages : List ChatMsg → List ℕ
unfolding strip_ws
template_messages [] = []
template_messages (m ∷ msgs) =
    let rest = template_messages msgs in
    if same_words m.role (codes "system")
    then codes "<|system|>" ++ (m.content ++ rest)
    else if same_words m.role (codes "user")
    then codes "<|user|>" ++ (m.content ++ rest)
    else if same_words m.role (codes "assistant")
    then codes "<|assistant|><think></think>" ++ (strip_ws m.content ++ rest)
    else if same_words m.role (codes "tool")
    then codes "<|observation|>" ++ (m.content ++ rest)
    else rest

unfoldable pub apply_chat_template : List ChatMsg → Bool → List ℕ → List ℕ
unfolding template_messages cap_first
apply_chat_template msgs gen effort =
    let eff =
      if same_words effort (codes "low")
        || (same_words effort (codes "high") || same_words effort (codes "max"))
      then effort
      else codes "max" in
    codes "[gMASK]<sop><|system|>Reasoning Effort: "
    ++ (cap_first eff
        ++ (template_messages msgs ++ (if gen then codes "<|assistant|><think>" else [])))

-- A message that both prompts can show: no result of a tool, no reasoning and no calls.
abbrev pub Plain : ChatMsg → Type 0
Plain m = (same_words m.role (codes "tool") ≡ false) × (m.reasoning ≡ []) × (m.tool_calls ≡ [])

no_system :
    (r : List ℕ) → same_words r (codes "user") ≡ true → same_words r (codes "system") ≡ false
unfolding same_words
no_system r h = rw (same_words-eq r (codes "user") h) refl

no_reasoning :
    (current : Bool) (r u v : List ℕ)
    → r ≡ []
    → (if current && not (same_words r []) then u else v) ≡ v
unfolding same_words
no_reasoning true r u v e = rw e refl
no_reasoning false r u v e = refl

write_assistant-Plain :
    (lib : JsonText) (current : Bool) (m : ChatMsg) (rest : List ℕ)
    → Plain m
    → write_assistant lib current m ++ rest
      ≡ codes "<|assistant|><think></think>" ++ (strip_ws m.content ++ rest)
unfolding write_assistant write_calls
write_assistant-Plain lib current m rest (role, reasoning, calls) =
    let think =
      no_reasoning current m.reasoning (codes "<think>" ++ (m.reasoning ++ codes "</think>"))
        (codes "<think></think>") reasoning in
    let text = strip_ws m.content in
    let none_called : write_calls lib m.tool_calls ≡ [] = ap (write_calls lib) calls in
    ap (λ a. (codes "<|assistant|>" ++ (a ++ (text ++ write_calls lib m.tool_calls))) ++ rest) think
    ∙ ap (λ k. (codes "<|assistant|>" ++ (codes "<think></think>" ++ (text ++ k))) ++ rest)
        none_called
    ∙ ap (λ t. codes "<|assistant|><think></think>" ++ t) (append_assoc text [] rest)

write_messages-template :
    (lib : JsonText) (after i : ℕ) (prev : Option ChatMsg) (msgs : List ChatMsg)
    → All Plain msgs
    → write_messages lib after i prev msgs ≡ template_messages msgs
unfolding write_messages template_messages
write_messages-template lib after i prev [] h = refl
write_messages-template lib after i prev (m ∷ msgs) (h, hs) =
    let rest = write_messages-template lib after (suc i) (some m) msgs hs in
    elim (Bool-cases (same_words m.role (codes "user"))) [
      | inl user ↦
          rw (user, no_system m.role user) (ap (λ t. codes "<|user|>" ++ (m.content ++ t)) rest)
      | inr no_user ↦ elim (Bool-cases (same_words m.role (codes "system"))) [
        | inl system ↦ rw (no_user, system) (ap (λ t. codes "<|system|>" ++ (m.content ++ t)) rest)
        | inr no_system ↦ elim (Bool-cases (same_words m.role (codes "assistant"))) [
          | inl assistant ↦
              rw (no_user, no_system, assistant)
                (write_assistant-Plain lib (leb after i) m
                    (write_messages lib after (suc i) (some m) msgs) h
                  ∙ ap (λ t. codes "<|assistant|><think></think>" ++ (strip_ws m.content ++ t))
                      rest)
          | inr no_assistant ↦ rw (no_user, no_system, no_assistant, h.0) rest
        ]
      ]
    ]

effort_eq :
    (e : List ℕ)
    → (if same_words e (codes "low") || (same_words e (codes "high") || same_words e (codes "max"))
        then e
        else codes "max")
      ≡ (if same_words e (codes "low") || same_words e (codes "high") then e else codes "max")
effort_eq e =
    third (same_words e (codes "low")) (same_words e (codes "high")) (same_words e (codes "max"))
      (same_words-eq e (codes "max"))
  where
    third :
        (a b c : Bool)
        → (c ≡ true → e ≡ codes "max")
        → (if a || (b || c) then e else codes "max") ≡ (if a || b then e else codes "max")
    third true b c h = refl
    third false true c h = refl
    third false false true h = h refl
    third false false false h = refl

-- For messages without results of tools, reasoning or calls, and no tools, the prompt of the server with
-- thinking is the template of the tokenizer.
pub render_chat-apply_chat_template :
    (lib : JsonText) (msgs : List ChatMsg) (effort : List ℕ) (gen : Bool)
    → All Plain msgs
    → render_chat lib msgs Json.null effort gen true ≡ some (apply_chat_template msgs gen effort)
unfolding render_chat apply_chat_template
render_chat-apply_chat_template lib msgs effort gen h =
    let head = codes "[gMASK]<sop><|system|>Reasoning Effort: " in
    let tail = if gen then codes "<|assistant|><think>" else [] in
    let written = write_messages lib (after_last_user 0 msgs 0) 0 none msgs in
    let eff =
      if same_words effort (codes "low")
        || (same_words effort (codes "high") || same_words effort (codes "max"))
      then effort
      else codes "max" in
    ap (λ s. some (head ++ (cap_first s ++ (written ++ tail)))) (sym (effort_eq effort))
    ∙ ap (λ t. some (head ++ (cap_first eff ++ (t ++ tail))))
        (write_messages-template lib (after_last_user 0 msgs 0) 0 none msgs h)
