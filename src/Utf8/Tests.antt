-- ===== src/Utf8/Tests.antt =====
-- UTF-8 at a string with a cut character at its end, and with a stray byte.
use helios_glm53flash.Prelude.{ℕ, arith, ◌≡◌, refl, List, [], ◌∷◌}
use helios_glm53flash.Utf8.{
  utf8_seq_len, continues, complete_from, utf8_complete_prefix, sanitize_from, utf8_sanitize,
}
use helios_glm53flash.Utf8.Chars.{Whole, Needs}
use helios_glm53flash.Utf8.Complete.{Complete, utf8_complete_prefix-Complete}
use helios_glm53flash.Utf8.Sanitize.{Mended, utf8_sanitize-Mended, utf8_sanitize_same}

-- A letter, a character of two bytes, and two bytes of a character of three.
abbrev cut_dash : List ℕ
cut_dash = 0x41 ∷ 0xc3 ∷ 0xa9 ∷ 0xe2 ∷ 0x80 ∷ []

held_back : utf8_complete_prefix cut_dash ≡ 3
unfolding utf8_complete_prefix complete_from utf8_seq_len continues
held_back = refl

mended : utf8_sanitize (0x80 ∷ 0x41 ∷ []) ≡ 0xef ∷ 0xbf ∷ 0xbd ∷ 0x41 ∷ []
unfolding utf8_sanitize sanitize_from utf8_seq_len continues
mended = refl

utf8_complete_prefix-Complete_example : Complete (utf8_complete_prefix cut_dash) cut_dash
utf8_complete_prefix-Complete_example = utf8_complete_prefix-Complete cut_dash

utf8_sanitize-Mended_example :
    Mended cut_dash (utf8_sanitize cut_dash) × Whole (utf8_sanitize cut_dash)
utf8_sanitize-Mended_example = utf8_sanitize-Mended cut_dash

-- A cut sequence takes the letter behind it along.
letter_lost : utf8_sanitize (0xe2 ∷ 0x41 ∷ []) ≡ 0xef ∷ 0xbf ∷ 0xbd ∷ []
unfolding utf8_sanitize sanitize_from utf8_seq_len continues
letter_lost = refl

-- An overlong form stays.
overlong : utf8_sanitize (0xc0 ∷ 0x80 ∷ []) ≡ 0xc0 ∷ 0x80 ∷ []
unfolding utf8_sanitize sanitize_from utf8_seq_len continues
overlong = refl

-- A letter, and characters of two, three and four bytes.
abbrev lengths : List ℕ
lengths = 0x41 ∷ 0xc3 ∷ 0xa9 ∷ 0xe2 ∷ 0x82 ∷ 0xac ∷ 0xf0 ∷ 0x9f ∷ 0x98 ∷ 0x80 ∷ []

lengths-Whole : Whole lengths
lengths-Whole =
    Whole.character 0x41 (0xc3 ∷ 0xa9 ∷ 0xe2 ∷ 0x82 ∷ 0xac ∷ 0xf0 ∷ 0x9f ∷ 0x98 ∷ 0x80 ∷ [])
      (0xc3 ∷ 0xa9 ∷ 0xe2 ∷ 0x82 ∷ 0xac ∷ 0xf0 ∷ 0x9f ∷ 0x98 ∷ 0x80 ∷ [])
      (record { tail = []; cut = refl; needs = Needs.one 0x41 (omega arith); follows = tt })
      (Whole.character 0xc3 (0xa9 ∷ 0xe2 ∷ 0x82 ∷ 0xac ∷ 0xf0 ∷ 0x9f ∷ 0x98 ∷ 0x80 ∷ [])
        (0xe2 ∷ 0x82 ∷ 0xac ∷ 0xf0 ∷ 0x9f ∷ 0x98 ∷ 0x80 ∷ [])
        (record {
          tail = 0xa9 ∷ [];
          cut = refl;
          needs = Needs.two 0xc3 (omega arith) (omega arith);
          follows = ((omega arith, omega arith), tt);
        })
        (Whole.character 0xe2 (0x82 ∷ 0xac ∷ 0xf0 ∷ 0x9f ∷ 0x98 ∷ 0x80 ∷ [])
          (0xf0 ∷ 0x9f ∷ 0x98 ∷ 0x80 ∷ [])
          (record {
            tail = 0x82 ∷ 0xac ∷ [];
            cut = refl;
            needs = Needs.three 0xe2 (omega arith) (omega arith);
            follows = ((omega arith, omega arith), ((omega arith, omega arith), tt));
          })
          (Whole.character 0xf0 (0x9f ∷ 0x98 ∷ 0x80 ∷ []) []
            (record {
              tail = 0x9f ∷ 0x98 ∷ 0x80 ∷ [];
              cut = refl;
              needs = Needs.four 0xf0 (omega arith) (omega arith);
              follows = (
                (omega arith, omega arith),
                ((omega arith, omega arith), ((omega arith, omega arith), tt)),
              );
            })
            Whole.nothing)))

utf8_sanitize_same_example : utf8_sanitize lengths ≡ lengths
utf8_sanitize_same_example = utf8_sanitize_same lengths lengths-Whole
