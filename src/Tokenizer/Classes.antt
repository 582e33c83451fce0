-- ===== src/Tokenizer/Classes.antt =====
-- The character classes of the pre-tokenizer, in_ranges to is_ws (src/tokenizer/tokenizer.cpp). The
-- tables of letters and numbers are parameters: src/tokenizer/unicode_class.hpp is generated.
pub mod Search
use helios_glm53flash.Prelude.{
  ℕ, zero, suc, ◌+◌, ◌-◌, ◌/◌, Bool, true, false, ◌&&◌, ◌||◌, List, [], ◌∷◌, Option, none, some,
  length, get_elem?, ltb, leb, ◌==◌, if◌then◌else◌,
}

pub record URange : Type 0 where
  pub lo : ℕ
  pub hi : ℕ

-- kLetterRanges and kNumberRanges
pub record Ranges : Type 0 where
  pub letters : List URange
  pub numbers : List URange

-- The binary search of `in_ranges`; `past` is `hi + 1`, so that an empty table starts it at 0. Each
-- round leaves fewer ranges, so as much fuel as ranges is enough.
unfoldable pub in_ranges_from : ℕ → ℕ → List URange → ℕ → ℕ → Bool
in_ranges_from zero cp r lo past = false
in_ranges_from (suc fuel) cp r lo past = elim (ltb lo past) [
  | false ↦ false
  | true ↦
      let mid = (lo + past - 1) / 2 in
      elim (get_elem? r mid) [
        | none ↦ false
        | some u ↦ elim (ltb cp u.lo) [
          | true ↦ in_ranges_from fuel cp r lo mid
          | false ↦ elim (ltb u.hi cp) [
            | true ↦ in_ranges_from fuel cp r (suc mid) past
            | false ↦ true
          ]
        ]
      ]
]

unfoldable pub in_ranges : ℕ → List URange → Bool
unfolding in_ranges_from
in_ranges cp r = in_ranges_from (length r) cp r 0 (length r)

unfoldable pub is_letter : Ranges → ℕ → Bool
unfolding in_ranges
is_letter t cp =
    if ltb cp 128
    then (leb 0x41 cp && leb cp 0x5a) || (leb 0x61 cp && leb cp 0x7a)
    else in_ranges cp t.letters

unfoldable pub is_number : Ranges → ℕ → Bool
unfolding in_ranges
is_number t cp = if ltb cp 128 then leb 0x30 cp && leb cp 0x39 else in_ranges cp t.numbers

unfoldable pub is_newline : ℕ → Bool
is_newline cp = (cp == 0x0d) || (cp == 0x0a)

unfoldable pub is_space : ℕ → Bool
is_space cp =
    (cp == 0x20)
    || ((cp == 0x09)
        || ((cp == 0x0a)
            || ((cp == 0x0d)
                || ((cp == 0x0b)
                    || ((cp == 0x0c)
                        || ((cp == 0x85)
                            || ((cp == 0xa0)
                                || ((cp == 0x1680)
                                    || ((cp == 0x2028)
                                        || ((cp == 0x2029)
                                            || ((cp == 0x202f)
                                                || ((cp == 0x205f)
                                                    || ((cp == 0x3000)
                                                        || (leb 0x2000 cp
                                                            && leb cp 0x200a))))))))))))))
