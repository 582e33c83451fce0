-- ===== src/Tokenizer/Codec/Spelling.antt =====
-- Bytes spelled in symbols: what a walk over the symbols reads.
use helios_glm53flash.Prelude.{
  length-append, ℕ, zero, suc, ◌/◌, ◌≤◌, ◌<◌, ◌≡◌, ◌≢◌, refl, ap, inl, inr, Bool, true, false, List,
  [], ◌∷◌, ◌++◌, some, map, arith, length, take, drop, ltb, ◌==◌, Bool-cases, same_words,
  same_words-eq, same_words_refl, concat, All,
}
use helios_glm53flash.Tokenizer.Symbols.{b2s, s2b_below, s2b, dec_cp}
use helios_glm53flash.Tokenizer.Symbols.Inverse.{all_bytes, all_bytes-true, b2s-injective}
use helios_glm53flash.Tokenizer.Codec.{decode_token}

s2b_below-b2s : (n b : ℕ) → n ≤ 256 → b < n → s2b_below n (b2s b) ≡ some b
unfolding s2b_below
s2b_below-b2s zero b within lt = absurd (omega arith)
s2b_below-b2s (suc n) b within lt = elim (Bool-cases (same_words (b2s n) (b2s b))) [
  | inl same ↦
      let e = b2s-injective n b (omega arith) (omega arith) (same_words-eq (b2s n) (b2s b) same) in
      rw same (ap some e)
  | inr other ↦
      let ne : n ≢ b =
        λ e. absurd (cc (other, ap (λ k. same_words (b2s k) (b2s b)) e, same_words_refl (b2s b))) in
      rw other (s2b_below-b2s n b (omega arith) (omega arith))
]

-- `s2b` finds the byte of a symbol.
pub s2b-b2s : (b : ℕ) → b < 256 → s2b (b2s b) ≡ some b
unfolding s2b
s2b-b2s b h = s2b_below-b2s 256 b (omega arith) h

-- A string of one or two bytes whose first byte says so.
abbrev sized : List ℕ → Bool
sized [] = false
sized (c ∷ []) = ltb c 0x80
sized (c ∷ d ∷ []) = c / 32 == 6
sized (c ∷ d ∷ e ∷ s) = false

sized_table : all_bytes 256 (λ b. sized (b2s b)) ≡ true
unfolding all_bytes b2s
sized_table = refl

b2s-sized : (b : ℕ) → b < 256 → sized (b2s b) ≡ true
b2s-sized b h = all_bytes-true 256 (λ b. sized (b2s b)) b sized_table h

-- The first code point of a string that starts with such a string is that string.
abbrev pub FrontIs : ℕ → List ℕ → List ℕ → List ℕ → Type 0
FrontIs c s sy rest = (take (dec_cp c s).0 (c ∷ s) ≡ sy) × (drop (dec_cp c s).0 (c ∷ s) ≡ rest)

one_byte : (c : ℕ) (rest : List ℕ) → ltb c 0x80 ≡ true → FrontIs c rest (c ∷ []) rest
unfolding dec_cp
one_byte c [] h = (refl, refl)
one_byte c (d ∷ []) h = rw h (refl, refl)
one_byte c (d ∷ e ∷ []) h = rw h (refl, refl)
one_byte c (d ∷ e ∷ f ∷ s) h = rw h (refl, refl)

high_byte : (c : ℕ) → (c / 32 == 6) ≡ true → ltb c 0x80 ≡ false
high_byte c h = ground arith

two_bytes :
    (c d : ℕ) (rest : List ℕ) → (c / 32 == 6) ≡ true → FrontIs c (d ∷ rest) (c ∷ d ∷ []) rest
unfolding dec_cp
two_bytes c d [] h = rw (high_byte c h, h) (refl, refl)
two_bytes c d (e ∷ []) h = rw (high_byte c h, h) (refl, refl)
two_bytes c d (e ∷ f ∷ s) h = rw (high_byte c h, h) (refl, refl)

sized_front :
    (sy rest : List ℕ)
    → sized sy ≡ true
    → (c : ℕ) × (s : List ℕ) × (sy ++ rest ≡ c ∷ s) × FrontIs c s sy rest
sized_front [] rest h = absurd (cc h)
sized_front (c ∷ []) rest h = (c, rest, refl, one_byte c rest h)
sized_front (c ∷ d ∷ []) rest h = (c, d ∷ rest, refl, two_bytes c d rest h)
sized_front (c ∷ d ∷ e ∷ s) rest h = absurd (cc h)

pub b2s_front :
    (b : ℕ) (rest : List ℕ)
    → b < 256
    → (c : ℕ) × (s : List ℕ) × (b2s b ++ rest ≡ c ∷ s) × FrontIs c s (b2s b) rest
b2s_front b rest h = sized_front (b2s b) rest (b2s-sized b h)

abbrev pub IsByte : ℕ → Type 0
IsByte b = b < 256

-- The symbols of a string, joined.
abbrev pub spell : List ℕ → List ℕ
spell bs = concat (map b2s bs)

-- Decoding what was spelled gives it back.
pub decode_token-spell :
    (bs : List ℕ) (fuel : ℕ) → All IsByte bs → length bs ≤ fuel → decode_token fuel (spell bs) ≡ bs
unfolding decode_token
decode_token-spell [] zero h enough = refl
decode_token-spell [] (suc fuel) h enough = refl
decode_token-spell (b ∷ bs) zero h enough = absurd (omega arith)
decode_token-spell (b ∷ bs) (suc fuel) (hb, hs) enough =
    let (c, s, e, front) = b2s_front b (spell bs) hb in
    rw (e, decode_token, front.0, s2b-b2s b hb, front.1)
      (ap (◌∷◌ b) (decode_token-spell bs fuel hs (omega arith)))

sized_pos : (sy : List ℕ) → sized sy ≡ true → 1 ≤ length sy
sized_pos [] h = absurd (cc h)
sized_pos (c ∷ s) h = omega arith

-- A symbol has a byte at least.
pub length-spell : (bs : List ℕ) → All IsByte bs → length bs ≤ length (spell bs)
length-spell [] h = omega arith
length-spell (b ∷ bs) (hb, hs) = omega (
  arith,
  length-append (b2s b) (spell bs),
  length-spell bs hs,
  sized_pos (b2s b) (b2s-sized b hb),
)

sized_within : (sy : List ℕ) → sized sy ≡ true → length sy ≤ 2
sized_within [] h = omega arith
sized_within (c ∷ []) h = omega arith
sized_within (c ∷ d ∷ []) h = omega arith
sized_within (c ∷ d ∷ e ∷ s) h = absurd (cc h)

pub length-b2s : (b : ℕ) → IsByte b → length (b2s b) ≤ 2
length-b2s b h = sized_within (b2s b) (b2s-sized b h)
