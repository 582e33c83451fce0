-- ===== src/Tokenizer/Codec/Longest.antt =====
-- The added token that `encode` finds at a position is the longest that stands there.
use helios_glm53flash.Prelude.{
  subst, ℕ, suc, ◌≤◌, ◌≡◌, ◌⊎◌, refl, sym, inl, inr, true, List, [], ◌∷◌, Option, none, some, arith,
  length, get_elem?, leb, Bool-cases, All,
}
use helios_glm53flash.Tokenizer.Vocab.{Table}
use helios_glm53flash.Tokenizer.Codec.{stands_at, match_added}

-- Longer contents stand first, as `load` sorts them.
abbrev pub Descending : Table → Type 0
Descending [] = Unit
Descending ((c, id) ∷ added) = All (λ (d, id'). length d ≤ length c) added × Descending added

-- No content that stands at the start of the text is longer than `n`.
abbrev pub NoLonger : Table → List ℕ → ℕ → Type 0
NoLonger added s n = All (λ (c, id). stands_at c s ≡ true → length c ≤ n) added

-- An entry of the table, with the length of its content, stands at the start of the text.
abbrev pub StandsFirst : Table → List ℕ → Option ℕ → ℕ → Type 0
StandsFirst added s matched n =
    (j : ℕ) × (c : List ℕ) × (id : ℕ) × (get_elem? added j ≡ some (c, id))
    × (stands_at c s ≡ true)
    × (matched ≡ some id)
    × (n ≡ length c)

shorter-NoLonger :
    (added : Table) (s c : List ℕ) (n : ℕ)
    → length c ≤ n
    → All (λ (d, id). length d ≤ length c) added
    → NoLonger added s n
shorter-NoLonger [] s c n h k = tt
shorter-NoLonger ((d, id) ∷ added) s c n h (k, ks) =
    ((λ stands. omega arith), shorter-NoLonger added s c n h ks)

match_added-NoLonger :
    (added : Table) (s : List ℕ) (matched : Option ℕ) (mlen : ℕ)
    → Descending added
    → (mlen ≤ (match_added added s matched mlen).1)
      × NoLonger added s (match_added added s matched mlen).1
unfolding match_added
match_added-NoLonger [] s matched mlen h = (omega arith, tt)
match_added-NoLonger ((c, id) ∷ added) s matched mlen (h, hs) =
    let r = (match_added ((c, id) ∷ added) s matched mlen).1 in
    elim (Bool-cases (leb (length c) mlen)) [
      | inl short ↦
          let e : r ≡ mlen = rw short refl in
          at_most e (
            omega arith,
            ((λ stands. ground arith), shorter-NoLonger added s c mlen (ground arith) h),
          )
      | inr long ↦ elim (Bool-cases (stands_at c s)) [
        | inr other ↦
            let e : r ≡ (match_added added s matched mlen).1 = rw (long, other) refl in
            let (more, others) = match_added-NoLonger added s matched mlen hs in
            at_most e (more, ((λ stands. absurd (cc (stands, other))), others))
        | inl hit ↦
            let e : r ≡ (match_added added s (some id) (length c)).1 = rw (long, hit) refl in
            let (more, others) = match_added-NoLonger added s (some id) (length c) hs in
            at_most e (ground arith, ((λ stands. more), others))
      ]
    ]
  where
    at_most :
        {m n : ℕ}
        → m ≡ n
        → (mlen ≤ n) × NoLonger ((c, id) ∷ added) s n
        → (mlen ≤ m) × NoLonger ((c, id) ∷ added) s m
    at_most e h' = subst (λ k. (mlen ≤ k) × NoLonger ((c, id) ∷ added) s k) (sym e) h'

abbrev Source : Table → List ℕ → Option ℕ → ℕ → Option ℕ × ℕ → Type 0
Source added s matched mlen r = ((r.0 ≡ matched) × (r.1 ≡ mlen)) ⊎ StandsFirst added s r.0 r.1

later-Source :
    (c : List ℕ) (id : ℕ) (added : Table) (s : List ℕ) (r : Option ℕ × ℕ)
    → StandsFirst added s r.0 r.1
    → StandsFirst ((c, id) ∷ added) s r.0 r.1
later-Source c id added s r (j, d, id', at, stands, m, n) = (suc j, d, id', at, stands, m, n)

match_added-Source :
    (added : Table) (s : List ℕ) (matched : Option ℕ) (mlen : ℕ)
    → Source added s matched mlen (match_added added s matched mlen)
unfolding match_added
match_added-Source [] s matched mlen = inl (refl, refl)
match_added-Source ((c, id) ∷ added) s matched mlen = elim (Bool-cases (leb (length c) mlen)) [
  | inl short ↦ rw short (inl (refl, refl))
  | inr long ↦ elim (Bool-cases (stands_at c s)) [
    | inr other ↦
        rw (long, other)
          (elim (match_added-Source added s matched mlen) [
            | inl same ↦ inl same
            | inr found ↦ inr (later-Source c id added s (match_added added s matched mlen) found)
          ])
    | inl hit ↦
        rw (long, hit)
          (elim (match_added-Source added s (some id) (length c)) [
            | inl (m, n) ↦ inr (0, c, id, refl, hit, m, n)
            | inr found ↦
                inr (later-Source c id added s (match_added added s (some id) (length c)) found)
          ])
  ]
]

-- In a table with longer contents first, what is found at a position is nothing, of length 0, or an entry
-- that stands there; and no content that stands there is longer.
pub match_added-StandsFirst :
    (added : Table) (s : List ℕ)
    → Descending added
    → let (matched, n) = match_added added s none 0 in
      (((matched ≡ none) × (n ≡ 0)) ⊎ StandsFirst added s matched n) × NoLonger added s n
match_added-StandsFirst added s h =
    (match_added-Source added s none 0, (match_added-NoLonger added s none 0 h).1)
