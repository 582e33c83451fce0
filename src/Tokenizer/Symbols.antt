-- ===== src/Tokenizer/Symbols.antt =====
-- The symbols that stand for bytes in the vocabulary, b2s and s2b, and dec_cp
-- (src/tokenizer/tokenizer.cpp).
pub mod Inverse
use helios_glm53flash.Prelude.{
  ◌^◌, ℕ, zero, suc, ◌+◌, ◌-◌, ◌*◌, ◌/◌, ◌%◌, Bool, true, false, ◌&&◌, ◌||◌, not, List, [], ◌∷◌,
  Option, none, some, ltb, leb, ◌==◌, if◌then◌else◌, same_words,
}

-- The bytes that the first three loops of `b2s` push: they stand for themselves.
unfoldable pub is_kept : ℕ → Bool
is_kept b = (leb 33 b && leb b 126) || (leb 161 b && leb b 172) || (leb 174 b && leb b 255)

-- `n` of the loop over the other bytes, when it comes to byte `b`.
unfoldable pub others_below : ℕ → ℕ
others_below zero = 0
others_below (suc b) = if is_kept b then others_below b else suc (others_below b)

unfoldable pub code_of : ℕ → ℕ
code_of b = if is_kept b then b else 256 + others_below b

-- The UTF-8 bytes of a code point below 0x10000; `|` joins bits that do not overlap.
unfoldable pub utf8_of : ℕ → List ℕ
utf8_of cp =
    if ltb cp 0x80
    then cp ∷ []
    else if ltb cp 0x800
    then (0xc0 + cp / 2 ^ 6) ∷ (0x80 + cp % 2 ^ 6) ∷ []
    else (0xe0 + cp / 2 ^ 12) ∷ (0x80 + cp / 2 ^ 6 % 2 ^ 6) ∷ (0x80 + cp % 2 ^ 6) ∷ []

unfoldable pub b2s : ℕ → List ℕ
unfolding is_kept others_below code_of utf8_of
b2s b = utf8_of (code_of b)

-- The loop of `s2b`: a later byte overwrites an earlier one with the same symbol.
unfoldable pub s2b_below : ℕ → List ℕ → Option ℕ
s2b_below zero s = none
s2b_below (suc b) s =
    let earlier = s2b_below b s in if same_words (b2s b) s then some b else earlier

unfoldable pub s2b : List ℕ → Option ℕ
unfolding s2b_below
s2b s = s2b_below 256 s

-- dec_cp of the string that is left: the length of its first code point, and the code point. On a
-- malformed or cut sequence it is the byte itself.
unfoldable pub dec_cp : ℕ → List ℕ → ℕ × ℕ
dec_cp c (d ∷ e ∷ f ∷ s) =
    if ltb c 0x80
    then (1, c)
    else if c / 32 == 6
    then (2, c % 32 * 64 + d % 64)
    else if c / 16 == 14
    then (3, c % 16 * 4096 + d % 64 * 64 + e % 64)
    else if c / 8 == 30
    then (4, c % 8 * 262144 + d % 64 * 4096 + e % 64 * 64 + f % 64)
    else (1, c)
dec_cp c (d ∷ e ∷ []) =
    if ltb c 0x80
    then (1, c)
    else if c / 32 == 6
    then (2, c % 32 * 64 + d % 64)
    else if c / 16 == 14
    then (3, c % 16 * 4096 + d % 64 * 64 + e % 64)
    else (1, c)
dec_cp c (d ∷ []) =
    if ltb c 0x80 then (1, c) else if c / 32 == 6 then (2, c % 32 * 64 + d % 64) else (1, c)
dec_cp c [] = (1, c)
