-- ===== src/Utf8/Complete.antt =====
-- `utf8_complete_prefix`: the bytes before it are whole sequences, and no whole sequence follows.
use helios_glm53flash.Prelude.{
  ℕ, zero, suc, ◌+◌, ◌-◌, ◌≤◌, ◌≡◌, refl, sym, ap, ◌∙◌, inl, inr, List, [], ◌∷◌, ◌++◌, arith,
  length, take, drop, length-drop, length-append, take-add, ltb, ◌==◌, Bool-cases,
}
use helios_glm53flash.Utf8.{utf8_seq_len, continues, complete_from, utf8_complete_prefix}
use helios_glm53flash.Utf8.Chars.{Starts, Needs-len, Whole, found_Starts, Starts-found, Starts-tail}

-- No whole sequence starts the string.
abbrev pub Stuck : List ℕ → Type 0
Stuck s = (b : ℕ) (t rest : List ℕ) → s ≡ b ∷ t → ¬ Starts b t rest

-- `r` bytes of the string are whole sequences, and then there is none.
pub record Complete (r : ℕ) (s : List ℕ) : Type 0 where
  pub within : r ≤ length s
  pub whole : Whole (take r s)
  pub stuck : Stuck (drop r s)

drop_nil : (n : ℕ) → drop {A = ℕ} n [] ≡ []
drop_nil zero = refl
drop_nil (suc n) = refl

drop-add : (m n : ℕ) (s : List ℕ) → drop (m + n) s ≡ drop n (drop m s)
drop-add zero n s = ap (λ k. drop k s) (omega arith)
drop-add (suc m) n [] = drop_nil (suc m + n) ∙ sym (drop_nil n)
drop-add (suc m) n (b ∷ s) = let e : suc m + n ≡ suc (m + n) = omega arith in rw e (drop-add m n s)

head_eq : (a b : ℕ) (s t : List ℕ) → a ∷ s ≡ b ∷ t → (a ≡ b) × (s ≡ t)
head_eq a b s t e = (cc, cc)

Stuck-nil : Stuck []
Stuck-nil b t rest e h = cc

-- A failed test of the loop, as a value that the tests of a first character exclude.
Stuck-cons : (b : ℕ) (s : List ℕ) → ((rest : List ℕ) → ¬ Starts b s rest) → Stuck (b ∷ s)
Stuck-cons b s none_here a t rest e h =
    let (same, tail) = head_eq b a s t e in none_here rest (rw (same, tail) h)

none_Complete : (s : List ℕ) → Stuck s → Complete 0 s
none_Complete s h = record { within = omega arith; whole = Whole.nothing; stuck = h }

-- One more character before a complete prefix.
more_Complete :
    (b r : ℕ) (s : List ℕ)
    → (h : Starts b s (drop (utf8_seq_len b - 1) s)) → Complete r (drop (utf8_seq_len b - 1) s)
    → Complete (utf8_seq_len b + r) (b ∷ s)
more_Complete b r s h c =
    let k = utf8_seq_len b - 1 in
    let next : utf8_seq_len b + r ≡ suc (k + r) = omega (arith, Needs-len h.needs) in
    let size = length-append h.tail (drop k s) in
    let tail_size : length h.tail ≡ k = omega (arith, Needs-len h.needs) in
    record {
      within = omega (arith, next, c.within, ap length h.cut, size, tail_size);
      whole = rw next (
          Whole.character b (take (k + r) s) (take r (drop k s))
            (record {
              tail = h.tail;
              cut =
                  sym (take-add k r s)
                  ∙ ap (λ t. t ++ take r (drop k s)) (Starts-tail b s (drop k s) h);
              needs = h.needs;
              follows = h.follows;
            })
            c.whole);
      stuck = rw (next, drop-add k r s) c.stuck;
    }

pub complete_from-Complete :
    (fuel i : ℕ) (s : List ℕ)
    → length s ≤ fuel
    → (r : ℕ) × (complete_from fuel i s ≡ i + r) × Complete r s
unfolding complete_from
complete_from-Complete zero i [] enough = (0, omega arith, none_Complete [] Stuck-nil)
complete_from-Complete zero i (b ∷ s) enough = absurd (omega arith)
complete_from-Complete (suc fuel) i [] enough = (0, omega arith, none_Complete [] Stuck-nil)
complete_from-Complete (suc fuel) i (b ∷ s) enough = elim (Bool-cases (utf8_seq_len b == 0)) [
  | inl no_lead ↦ (
    0,
    rw no_lead (omega arith),
    none_Complete (b ∷ s) (Stuck-cons b s (λ rest h. ground (arith, (Starts-found b s rest h).0))),
  )
  | inr lead ↦ elim (Bool-cases (ltb (length (b ∷ s)) (utf8_seq_len b))) [
    | inl short ↦ (
      0,
      rw lead (rw short (omega arith)),
      none_Complete (b ∷ s)
          (Stuck-cons b s (λ rest h. ground (arith, (Starts-found b s rest h).1))),
    )
    | inr long ↦ elim (Bool-cases (continues (utf8_seq_len b - 1) s)) [
      | inr broken ↦ (
        0,
        rw lead (rw long (rw broken (omega arith))),
        none_Complete (b ∷ s)
            (Stuck-cons b s (λ rest h. ground (arith, (Starts-found b s rest h).2))),
      )
      | inl ok ↦
          let h = found_Starts b s lead ok in
          let (r, e, c) =
            complete_from-Complete fuel (i + utf8_seq_len b) (drop (utf8_seq_len b - 1) s)
              (omega (arith, enough, length-drop (utf8_seq_len b - 1) s)) in
          (
            utf8_seq_len b + r,
            rw lead (rw long (rw ok (omega (arith, e)))),
            more_Complete b r s h c,
          )
    ]
  ]
]

-- The prefix consists of whole sequences, lies within the string, and no whole sequence follows it. These
-- are sequences by the ranges of their bytes: overlong forms and surrogates are among them.
pub utf8_complete_prefix-Complete : (s : List ℕ) → Complete (utf8_complete_prefix s) s
unfolding utf8_complete_prefix
utf8_complete_prefix-Complete s =
    let (r, e, c) = complete_from-Complete (length s) 0 s (omega arith) in
    let same : complete_from (length s) 0 s ≡ r = omega (arith, e) in rw same c
