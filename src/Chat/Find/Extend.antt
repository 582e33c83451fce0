-- ===== src/Chat/Find/Extend.antt =====
-- What a search finds when the text is extended at its end or cut at its start.
use helios_glm53flash.Prelude.{
  ℕ, zero, suc, ◌+◌, ◌≤◌, ◌<◌, ◌≡◌, refl, sym, ap, ◌∙◌, inl, inr, true, ◌&&◌, List, [], ◌∷◌, ◌++◌,
  Option, none, some, arith, length, take, drop, ltb, ◌==◌, if◌then◌else◌, Bool-cases, Option-cases,
}
use helios_glm53flash.Chat.Find.{begins_with, one_later, find_tag, later_by}

-- A text that is long enough begins with the tag or not, whatever follows.
pub begins_with-append :
    (tag s x : List ℕ) → length tag ≤ length s → begins_with tag (s ++ x) ≡ begins_with tag s
unfolding begins_with
begins_with-append [] s x h = refl
begins_with-append (t ∷ tag) [] x h = absurd (omega arith)
begins_with-append (t ∷ tag) (c ∷ s) x h =
    ap (λ b. (c == t) && b) (begins_with-append tag s x (omega arith))

pub begins_with-length : (tag s : List ℕ) → begins_with tag s ≡ true → length tag ≤ length s
unfolding begins_with
begins_with-length [] s h = omega arith
begins_with-length (t ∷ tag) [] h = absurd (cc h)
begins_with-length (t ∷ tag) (c ∷ s) h = ground (arith, begins_with-length tag s)

-- A text that begins with the tag once it is extended is a beginning of the tag.
pub begins_with-short :
    (tag s x : List ℕ)
    → begins_with tag (s ++ x) ≡ true
    → length s ≤ length tag
    → s ≡ take (length s) tag
unfolding begins_with
begins_with-short tag [] x h short = refl
begins_with-short [] (c ∷ s) x h short = absurd (omega arith)
begins_with-short (t ∷ tag) (c ∷ s) x h short = ground (arith, begins_with-short tag s x)

-- What is found has the tag in the text.
pub find_tag-within : (tag s : List ℕ) (e : ℕ) → find_tag tag s ≡ some e → e + length tag ≤ length s
unfolding find_tag
find_tag-within tag [] e = λ h. absurd (cc h)
find_tag-within tag (c ∷ s) e = elim (Bool-cases (begins_with tag (c ∷ s))) [
  | inl here ↦
      rw here (λ h. let z : 0 ≡ e = cc in omega (arith, begins_with-length tag (c ∷ s) here))
  | inr not_here ↦ elim (Option-cases (find_tag tag s)) [
    | inl missing ↦ rw (not_here, missing) (λ h. absurd (cc h))
    | inr (i, found) ↦
        rw (not_here, found)
          (λ h. let z : suc i ≡ e = cc in omega (arith, find_tag-within tag s i found))
  ]
]

-- A tag that is found is found at the same place when the text is extended.
pub find_tag-append :
    (tag s x : List ℕ) (e : ℕ) → find_tag tag s ≡ some e → find_tag tag (s ++ x) ≡ some e
unfolding find_tag
find_tag-append tag [] x e = λ h. absurd (cc h)
find_tag-append tag (c ∷ s) x e = elim (Bool-cases (begins_with tag (c ∷ s))) [
  | inl here ↦
      let same = begins_with-append tag (c ∷ s) x (begins_with-length tag (c ∷ s) here) in
      rw (same, here) (λ h. h)
  | inr not_here ↦ elim (Option-cases (find_tag tag s)) [
    | inl missing ↦ rw (not_here, missing) (λ h. absurd (cc h))
    | inr (i, found) ↦
        let fits = find_tag-within tag s i found in
        let same = begins_with-append tag (c ∷ s) x (omega arith) in
        rw (same, not_here, found, find_tag-append tag s x i found) (λ h. h)
  ]
]

-- No place before `limit` begins with the tag in one text and not in the other.
abbrev pub SameBelow : ℕ → List ℕ → List ℕ → List ℕ → Type 0
SameBelow limit tag s x =
    (i : ℕ) → i < limit → begins_with tag (drop i s ++ x) ≡ begins_with tag (drop i s)

-- The position found, if it is below the limit.
abbrev pub below : ℕ → Option ℕ → Option ℕ
below limit none = none
below limit (some i) = if ltb i limit then some i else none

below_zero : (o : Option ℕ) → below 0 o ≡ none
below_zero none = refl
below_zero (some i) = ground arith

below-one_later :
    (limit : ℕ) (o : Option ℕ) → below (suc limit) (one_later o) ≡ one_later (below limit o)
below-one_later limit none = refl
below-one_later limit (some i) = ground arith

pub find_tag-below :
    (limit : ℕ) (tag s x : List ℕ)
    → limit ≤ length s
    → SameBelow limit tag s x
    → below limit (find_tag tag (s ++ x)) ≡ below limit (find_tag tag s)
unfolding find_tag
find_tag-below zero tag s x h same =
    below_zero (find_tag tag (s ++ x)) ∙ sym (below_zero (find_tag tag s))
find_tag-below (suc limit) tag [] x h same = absurd (omega arith)
find_tag-below (suc limit) tag (c ∷ s) x h same = elim (Bool-cases (begins_with tag (c ∷ s))) [
  | inl here ↦ rw (same 0 (omega arith), here) refl
  | inr not_here ↦
      rw (same 0 (omega arith), not_here)
        (below-one_later limit (find_tag tag (s ++ x))
          ∙ ap one_later
              (find_tag-below limit tag s x (omega arith) (λ i lt. same (suc i) (omega arith)))
          ∙ sym (below-one_later limit (find_tag tag s)))
]

-- A tag that is not found below the length of the first part is found in the second.
pub find_tag-later :
    (tag s x : List ℕ)
    → below (length s) (find_tag tag (s ++ x)) ≡ none
    → find_tag tag (s ++ x) ≡ later_by (length s) (find_tag tag x)
unfolding find_tag
find_tag-later tag [] x = λ h. later_zero (find_tag tag x)
  where
    later_zero : (o : Option ℕ) → o ≡ later_by 0 o
    later_zero none = refl
    later_zero (some i) = ap some (omega arith)
find_tag-later tag (c ∷ s) x = elim (Bool-cases (begins_with tag (c ∷ (s ++ x)))) [
  | inl here ↦ rw here (λ h. absurd (ground arith))
  | inr not_here ↦ rw not_here (λ h.
      ap one_later (
        find_tag-later tag s x (
          none_later (below (length s) (find_tag tag (s ++ x)))
            (sym (below-one_later (length s) (find_tag tag (s ++ x))) ∙ h)))
      ∙ one_later_by (find_tag tag x))
]
  where
    none_later : (o : Option ℕ) → one_later o ≡ none → o ≡ none
    none_later none h = refl
    none_later (some i) h = absurd (cc h)

    one_later_by : (o : Option ℕ) → one_later (later_by (length s) o) ≡ later_by (suc (length s)) o
    one_later_by none = refl
    one_later_by (some i) = ap some (omega arith)
