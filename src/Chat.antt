-- ===== src/Chat.antt =====
-- The streamed output's hold-back, src/core/chat.cpp: text that could still turn into a marker is not
-- emitted. A string is its bytes.
pub mod Holdback
pub mod Find
pub mod Calls
pub mod Parser
pub mod Json
pub mod Turns
pub mod Render
mod ParserTests
mod Tests
use helios_glm53flash.Prelude.{
  ℕ, zero, suc, ◌+◌, ◌-◌, min, max, Bool, true, false, List, [], ◌∷◌, length, take, drop,
  if◌then◌else◌, same_words,
}

-- `</think>`
abbrev pub think_end : List ℕ
think_end = 0x3c ∷ 0x2f ∷ 0x74 ∷ 0x68 ∷ 0x69 ∷ 0x6e ∷ 0x6b ∷ 0x3e ∷ []

-- `<tool_call>`
abbrev pub tool_begin : List ℕ
tool_begin = 0x3c ∷ 0x74 ∷ 0x6f ∷ 0x6f ∷ 0x6c ∷ 0x5f ∷ 0x63 ∷ 0x61 ∷ 0x6c ∷ 0x6c ∷ 0x3e ∷ []

-- `</tool_call>`
abbrev pub tool_end : List ℕ
tool_end = 0x3c ∷ 0x2f ∷ 0x74 ∷ 0x6f ∷ 0x6f ∷ 0x6c ∷ 0x5f ∷ 0x63 ∷ 0x61 ∷ 0x6c ∷ 0x6c ∷ 0x3e ∷ []

-- `<|observation|>`
abbrev pub observation : List ℕ
observation =
    0x3c ∷ 0x7c ∷ 0x6f ∷ 0x62 ∷ 0x73 ∷ 0x65 ∷ 0x72 ∷ 0x76 ∷ 0x61 ∷ 0x74 ∷ 0x69 ∷ 0x6f ∷ 0x6e ∷ 0x7c
    ∷ 0x3e ∷ []

-- `<|endoftext|>`
abbrev pub eos : List ℕ
eos = 0x3c ∷ 0x7c ∷ 0x65 ∷ 0x6e ∷ 0x64 ∷ 0x6f ∷ 0x66 ∷ 0x74 ∷ 0x65 ∷ 0x78 ∷ 0x74 ∷ 0x7c ∷ 0x3e ∷ []

-- `<|end|>`
abbrev pub end_turn : List ℕ
end_turn = 0x3c ∷ 0x7c ∷ 0x65 ∷ 0x6e ∷ 0x64 ∷ 0x7c ∷ 0x3e ∷ []

-- `<|user|>`
abbrev pub user_turn : List ℕ
user_turn = 0x3c ∷ 0x7c ∷ 0x75 ∷ 0x73 ∷ 0x65 ∷ 0x72 ∷ 0x7c ∷ 0x3e ∷ []

-- `<|assistant|>`
abbrev pub assistant_turn : List ℕ
assistant_turn =
    0x3c ∷ 0x7c ∷ 0x61 ∷ 0x73 ∷ 0x73 ∷ 0x69 ∷ 0x73 ∷ 0x74 ∷ 0x61 ∷ 0x6e ∷ 0x74 ∷ 0x7c ∷ 0x3e ∷ []

-- `<|system|>`
abbrev pub system_turn : List ℕ
system_turn = 0x3c ∷ 0x7c ∷ 0x73 ∷ 0x79 ∷ 0x73 ∷ 0x74 ∷ 0x65 ∷ 0x6d ∷ 0x7c ∷ 0x3e ∷ []

abbrev pub marks : List (List ℕ)
marks =
    think_end ∷ tool_begin ∷ tool_end ∷ observation ∷ eos ∷ end_turn ∷ user_turn ∷ assistant_turn
    ∷ system_turn ∷ []

-- `s.compare(s.size() - len, len, m, 0, len) == 0`
abbrev pub could_start : List ℕ → List ℕ → ℕ → Bool
could_start s m len = same_words (drop (length s - len) s) (take len m)

-- The loop over the lengths, with the rounds left.
unfoldable pub longest_of : ℕ → ℕ → List ℕ → List ℕ → ℕ → ℕ
longest_of zero len s m best = best
longest_of (suc rounds) len s m best =
    longest_of rounds (suc len) s m (if could_start s m len then max best len else best)

-- The loop over the markers; `len < m.size() && len <= s.size()` bounds the rounds.
unfoldable pub longest_among : List (List ℕ) → List ℕ → ℕ → ℕ
longest_among [] s best = best
longest_among (m ∷ ms) s best =
    longest_among ms s (longest_of (min (length m - 1) (length s)) 1 s m best)

unfoldable pub holdback_len : List ℕ → ℕ
holdback_len s = longest_among marks s 0
