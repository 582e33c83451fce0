-- ===== src/Utf8.antt =====
-- UTF-8 boundaries in streamed output, src/engine/utf8.hpp. A string is its bytes, numbers below 256;
-- a test of the top bits of a byte, `(b & 0xE0) == 0xC0`, is a test of its quotient, `b / 32 == 6`.
pub mod Chars
pub mod Complete
pub mod Resume
pub mod Sanitize
mod Tests
use helios_glm53flash.Prelude.{
  ℕ, zero, suc, ◌+◌, ◌-◌, ◌/◌, ◌≤◌, Bool, true, false, ◌&&◌, not, List, [], ◌∷◌, ◌++◌, length, take,
  drop, ltb, leb, ◌==◌, if◌then◌else◌,
}

-- `(b & 0xC0) == 0x80`: a continuation byte.
abbrev pub is_continuation : ℕ → Bool
is_continuation b = b / 64 == 2

unfoldable pub utf8_seq_len : ℕ → ℕ
utf8_seq_len b =
    if ltb b 0x80
    then 1
    else if b / 32 == 6
    then 2
    else if b / 16 == 14
    then 3
    else if b / 8 == 30
    then 4
    else 0

-- `for (int k = 1; k < need; k++) ...`: the next bytes are continuation bytes.
unfoldable pub continues : ℕ → List ℕ → Bool
continues zero s = true
continues (suc k) [] = false
continues (suc k) (b ∷ s) = let rest = continues k s in is_continuation b && rest

-- The loop of `utf8_complete_prefix` over what is left of the string, with the bytes passed; a round
-- passes at least one byte, so as much fuel as bytes is enough.
unfoldable pub complete_from : ℕ → ℕ → List ℕ → ℕ
complete_from zero i s = i
complete_from (suc fuel) i [] = i
complete_from (suc fuel) i (b ∷ s) =
    let need = utf8_seq_len b in
    let rest = complete_from fuel (i + need) (drop (need - 1) s) in
    if need == 0
    then i
    else if ltb (length (b ∷ s)) need
    then i
    else if not (continues (need - 1) s)
    then i
    else rest

unfoldable pub utf8_complete_prefix : List ℕ → ℕ
unfolding complete_from
utf8_complete_prefix s = complete_from (length s) 0 s

-- U+FFFD
abbrev pub replacement : List ℕ
replacement = 0xef ∷ 0xbf ∷ 0xbd ∷ []

-- The loop of `utf8_sanitize`.
unfoldable pub sanitize_from : ℕ → List ℕ → List ℕ
sanitize_from zero s = []
sanitize_from (suc fuel) [] = []
sanitize_from (suc fuel) (b ∷ s) =
    let n = utf8_seq_len b in
    let skipped = sanitize_from fuel s in
    let passed = sanitize_from fuel (drop (n - 1) s) in
    if n == 0
    then replacement ++ skipped
    else if ltb (length (b ∷ s)) n
    then replacement
    else if not (continues (n - 1) s)
    then replacement ++ skipped
    else (b ∷ take (n - 1) s) ++ passed

unfoldable pub utf8_sanitize : List ℕ → List ℕ
unfolding sanitize_from
utf8_sanitize s = sanitize_from (length s) s
