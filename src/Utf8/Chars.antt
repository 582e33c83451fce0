-- ===== src/Utf8/Chars.antt =====
-- Sequences by the ranges of their bytes, apart from the tests of the code: a lead byte below 0x80, from
-- 0xC0, from 0xE0 or from 0xF0 to 0xF7 asks for none, one, two or three more bytes from 0x80 to 0xBF.
-- Overlong forms, surrogates and numbers above 0x10FFFF have this form too.
use helios_glm53flash.Prelude.{
  ℕ, zero, suc, ◌-◌, ◌/◌, ◌≤◌, ◌<◌, ◌≡◌, refl, sym, ap, subst, ◌∙◌, inl, inr, true, false, List, [],
  ◌∷◌, ◌++◌, arith, length, take, drop, length-append, take-append-drop, ltb, ◌==◌, Bool-cases, All,
}
use helios_glm53flash.Utf8.{utf8_seq_len, is_continuation, continues}

-- A lead byte, and the length of its sequence.
pub data Needs : ℕ → ℕ → Type 0 where
  one : (b : ℕ) → b < 0x80 → Needs b 1
  two : (b : ℕ) → 0xc0 ≤ b → b < 0xe0 → Needs b 2
  three : (b : ℕ) → 0xe0 ≤ b → b < 0xf0 → Needs b 3
  four : (b : ℕ) → 0xf0 ≤ b → b < 0xf8 → Needs b 4

-- A byte that stands after a lead byte.
abbrev pub Follows : ℕ → Type 0
Follows b = (0x80 ≤ b) × (b < 0xc0)

-- A string starts with a whole sequence: a lead byte and the bytes that it asks for.
pub record Starts (b : ℕ) (s : List ℕ) (rest : List ℕ) : Type 0 where
  pub tail : List ℕ
  pub cut : s ≡ tail ++ rest
  pub needs : Needs b (suc (length tail))
  pub follows : All Follows tail

-- A string of whole sequences.
pub data Whole : List ℕ → Type 0 where
  nothing : Whole []
  character : (b : ℕ) (s rest : List ℕ) → Starts b s rest → Whole rest → Whole (b ∷ s)

pub Needs-len : {b n : ℕ} → Needs b n → utf8_seq_len b ≡ n
unfolding utf8_seq_len
Needs-len (Needs.one b h) = ground arith
Needs-len (Needs.two b h k) = ground arith
Needs-len (Needs.three b h k) = ground arith
Needs-len (Needs.four b h k) = ground arith

pub len-Needs : (b : ℕ) → (utf8_seq_len b == 0) ≡ false → Needs b (utf8_seq_len b)
unfolding utf8_seq_len
len-Needs b = elim (Bool-cases (ltb b 0x80)) [
  | inl a ↦ rw a (λ h. Needs.one b (ground arith))
  | inr a ↦ elim (Bool-cases (b / 32 == 6)) [
    | inl c ↦ rw (a, c) (λ h. Needs.two b (ground arith) (ground arith))
    | inr c ↦ elim (Bool-cases (b / 16 == 14)) [
      | inl d ↦ rw (a, c, d) (λ h. Needs.three b (ground arith) (ground arith))
      | inr d ↦ elim (Bool-cases (b / 8 == 30)) [
        | inl e ↦ rw (a, c, d, e) (λ h. Needs.four b (ground arith) (ground arith))
        | inr e ↦ rw (a, c, d, e) (λ h. absurd (ground arith))
      ]
    ]
  ]
]

continuation-Follows : (b : ℕ) → is_continuation b ≡ true → Follows b
continuation-Follows b h = ground arith

Follows-continuation : (b : ℕ) → Follows b → is_continuation b ≡ true
Follows-continuation b h = ground arith

continues-take :
    (k : ℕ) (s : List ℕ) → continues k s ≡ true → (length (take k s) ≡ k) × All Follows (take k s)
unfolding continues
continues-take zero s h = (refl, tt)
continues-take (suc k) [] h = absurd (cc)
continues-take (suc k) (b ∷ s) h = elim (Bool-cases (is_continuation b)) [
  | inl yes_here ↦
      let rest = continues-take k s (rw yes_here at h) in
      (ap suc rest.0, (continuation-Follows b yes_here, rest.1))
  | inr no_here ↦ let clash : false ≡ true = rw no_here at h in absurd (cc)
]

continues-append :
    (tail rest : List ℕ) → All Follows tail → continues (length tail) (tail ++ rest) ≡ true
unfolding continues
continues-append [] rest h = refl
continues-append (b ∷ tail) rest (h, hs) =
    rw (Follows-continuation b h) (continues-append tail rest hs)

take_tail : (tail rest : List ℕ) → take (length tail) (tail ++ rest) ≡ tail
take_tail [] rest = refl
take_tail (b ∷ tail) rest = ap (◌∷◌ b) (take_tail tail rest)

drop_tail : (tail rest : List ℕ) → drop (length tail) (tail ++ rest) ≡ rest
drop_tail [] rest = refl
drop_tail (b ∷ tail) rest = drop_tail tail rest

-- The tests of the loops find a first character when there is one.
pub found_Starts :
    (b : ℕ) (s : List ℕ)
    → (utf8_seq_len b == 0) ≡ false
    → continues (utf8_seq_len b - 1) s ≡ true
    → Starts b s (drop (utf8_seq_len b - 1) s)
found_Starts b s some_need h =
    let k = utf8_seq_len b - 1 in
    let (size, follows) = continues-take k s h in
    record {
      tail = take k s;
      cut = sym (take-append-drop k s);
      needs = subst (Needs b) (ground (arith, size)) (len-Needs b some_need);
      follows = follows;
    }

-- With a first sequence, the tests of the loops pass.
pub Starts-found :
    (b : ℕ) (s rest : List ℕ)
    → Starts b s rest
    → ((utf8_seq_len b == 0) ≡ false)
      × (ltb (length (b ∷ s)) (utf8_seq_len b) ≡ false)
      × (continues (utf8_seq_len b - 1) s ≡ true)
      × (take (utf8_seq_len b - 1) s ++ drop (utf8_seq_len b - 1) s ≡ s)
      × (drop (utf8_seq_len b - 1) s ≡ rest)
Starts-found b s rest h =
    let len = Needs-len h.needs in
    let k : utf8_seq_len b - 1 ≡ length h.tail = omega (arith, len) in
    let size = length-append h.tail rest in
    (
      ground (arith, len),
      ground (arith, len, ap length h.cut, size),
      rw (k, h.cut) (continues-append h.tail rest h.follows),
      take-append-drop (utf8_seq_len b - 1) s,
      rw (k, h.cut) (drop_tail h.tail rest),
    )

pub Starts-tail :
    (b : ℕ) (s rest : List ℕ) (h : Starts b s rest) → take (utf8_seq_len b - 1) s ≡ h.tail
Starts-tail b s rest h =
    let len = Needs-len h.needs in
    let k : utf8_seq_len b - 1 ≡ length h.tail = omega (arith, len) in
    ap (take (utf8_seq_len b - 1)) h.cut
    ∙ ap (λ n. take n (h.tail ++ rest)) k
    ∙ take_tail h.tail rest
