-- ===== src/Tokenizer/Symbols/Inverse.antt =====
-- `s2b` undoes `b2s`, and `dec_cp` finds the end of a symbol.
use helios_glm53flash.Prelude.{
  ℕ, zero, suc, ◌+◌, ◌-◌, ◌*◌, ◌%◌, ◌<◌, ◌≡◌, refl, sym, ap, ◌∙◌, Bool, true, ◌&&◌, List, [], ◌∷◌,
  arith, ltb, ◌==◌, if◌then◌else◌, ==_iff,
}
use helios_glm53flash.Tokenizer.Symbols.{b2s}

-- A test that holds of every byte, by evaluation.
unfoldable pub all_bytes : ℕ → (ℕ → Bool) → Bool
all_bytes zero p = true
all_bytes (suc n) p = p n && all_bytes n p

pub all_bytes-true : (n : ℕ) (p : ℕ → Bool) (b : ℕ) → all_bytes n p ≡ true → b < n → p b ≡ true
unfolding all_bytes
all_bytes-true zero p b h lt = absurd (omega arith)
all_bytes-true (suc n) p b h lt = ground (arith, all_bytes-true n p b)

-- The byte of a symbol, from its code point.
abbrev byte_of_code : ℕ → ℕ
byte_of_code cp =
    if ltb cp 256
    then cp
    else if ltb cp 289
    then cp - 256
    else if ltb cp 323
    then cp - 289 + 127
    else 173

abbrev byte_of : List ℕ → ℕ
byte_of [] = 0
byte_of (c ∷ []) = c
byte_of (c ∷ d ∷ s) = byte_of_code (c % 32 * 64 + d % 64)

byte_of_table : all_bytes 256 (λ b. byte_of (b2s b) == b) ≡ true
unfolding all_bytes b2s
byte_of_table = refl

byte_of-b2s : (b : ℕ) → b < 256 → byte_of (b2s b) ≡ b
byte_of-b2s b h =
    (==_iff (byte_of (b2s b)) b).0
      (all_bytes-true 256 (λ b. byte_of (b2s b) == b) b byte_of_table h)

pub b2s-injective : (a b : ℕ) → a < 256 → b < 256 → b2s a ≡ b2s b → a ≡ b
b2s-injective a b ha hb e = sym (byte_of-b2s a ha) ∙ ap byte_of e ∙ byte_of-b2s b hb
