-- ===== src/Chat/Find/Earliest.antt =====
-- The earliest of several tags, when the text is extended at its end or cut at its start, or the limit
-- is raised.
use helios_glm53flash.Prelude.{
  ℕ, ◌+◌, ◌≤◌, ◌≡◌, refl, sym, ap, ◌∙◌, inl, inr, List, [], ◌∷◌, ◌++◌, Option, none, some, arith,
  length, ltb, if◌then◌else◌, Bool-cases, All,
}
use helios_glm53flash.Chat.Find.{find_tag, later_by, offer, earliest_of}
use helios_glm53flash.Chat.Find.Extend.{SameBelow, below, find_tag-below, find_tag-later}

-- Positions at the limit and above are not looked at.
offer-below :
    (limit : ℕ) (tag : List ℕ) (o : Option ℕ) (best : Option (ℕ × List ℕ))
    → offer limit tag o best ≡ offer limit tag (below limit o) best
unfolding offer
offer-below limit tag none best = refl
offer-below limit tag (some i) best = elim (Bool-cases (ltb i limit)) [
  | inl within ↦ rw within (rw within refl)
  | inr beyond ↦ rw beyond refl
]

-- Below a limit that nothing straddles, text behind changes nothing.
pub earliest_of-append :
    (limit : ℕ) (s x : List ℕ) (tags : List (List ℕ)) (best : Option (ℕ × List ℕ))
    → limit ≤ length s
    → All (λ tag. SameBelow limit tag s x) tags
    → earliest_of limit (s ++ x) tags best ≡ earliest_of limit s tags best
unfolding earliest_of
earliest_of-append limit s x [] best h same = refl
earliest_of-append limit s x (tag ∷ tags) best h (here, same) =
    earliest_of-append limit s x tags (offer limit tag (find_tag tag (s ++ x)) best) h same
    ∙ ap (earliest_of limit s tags) (
        offer-below limit tag (find_tag tag (s ++ x)) best
        ∙ ap (λ o. offer limit tag o best) (find_tag-below limit tag s x h here)
        ∙ sym (offer-below limit tag (find_tag tag s) best))

-- The tag found, if it is below the limit.
abbrev pub clip : ℕ → Option (ℕ × List ℕ) → Option (ℕ × List ℕ)
clip limit none = none
clip limit (some best) = if ltb best.0 limit then some best else none

offer-clip :
    (limit more : ℕ) (tag : List ℕ) (o : Option ℕ) (best : Option (ℕ × List ℕ))
    → limit ≤ more
    → clip limit (offer more tag o best) ≡ offer limit tag o (clip limit best)
unfolding offer
offer-clip limit more tag none best h = refl
offer-clip limit more tag (some f) none h = ground arith
offer-clip limit more tag (some f) (some best) h = ground arith

-- A lower limit hides what is found above it.
pub earliest_of-clip :
    (limit more : ℕ) (s : List ℕ) (tags : List (List ℕ)) (best : Option (ℕ × List ℕ))
    → limit ≤ more
    → clip limit (earliest_of more s tags best) ≡ earliest_of limit s tags (clip limit best)
unfolding earliest_of
earliest_of-clip limit more s [] best h = refl
earliest_of-clip limit more s (tag ∷ tags) best h =
    earliest_of-clip limit more s tags (offer more tag (find_tag tag s) best) h
    ∙ ap (earliest_of limit s tags) (offer-clip limit more tag (find_tag tag s) best h)

offer-none :
    (limit : ℕ) (tag : List ℕ) (o : Option ℕ) (best : Option (ℕ × List ℕ))
    → offer limit tag o best ≡ none
    → (best ≡ none) × (below limit o ≡ none)
unfolding offer
offer-none limit tag none best h = (h, refl)
offer-none limit tag (some f) none h = ground arith
offer-none limit tag (some f) (some best) h = ground arith

-- Where nothing is found, no tag is found below the limit.
pub earliest_of-none :
    (limit : ℕ) (s : List ℕ) (tags : List (List ℕ)) (best : Option (ℕ × List ℕ))
    → earliest_of limit s tags best ≡ none
    → (best ≡ none) × All (λ tag. below limit (find_tag tag s) ≡ none) tags
unfolding earliest_of
earliest_of-none limit s [] best h = (h, tt)
earliest_of-none limit s (tag ∷ tags) best h =
    let (before, others) =
      earliest_of-none limit s tags (offer limit tag (find_tag tag s) best) h in
    let (empty, here) = offer-none limit tag (find_tag tag s) best before in (empty, (here, others))

abbrev pub shifted : ℕ → Option (ℕ × List ℕ) → Option (ℕ × List ℕ)
shifted n none = none
shifted n (some best) = some (n + best.0, best.1)

offer-shifted :
    (n limit : ℕ) (tag : List ℕ) (o : Option ℕ) (best : Option (ℕ × List ℕ))
    → offer (n + limit) tag (later_by n o) (shifted n best) ≡ shifted n (offer limit tag o best)
unfolding offer
offer-shifted n limit tag none best = refl
offer-shifted n limit tag (some f) none = ground arith
offer-shifted n limit tag (some f) (some best) = ground arith

-- Text in front that has no tag only moves what is found.
pub earliest_of-shifted :
    (limit : ℕ) (s x : List ℕ) (tags : List (List ℕ)) (best : Option (ℕ × List ℕ))
    → All (λ tag. below (length s) (find_tag tag (s ++ x)) ≡ none) tags
    → earliest_of (length s + limit) (s ++ x) tags (shifted (length s) best)
      ≡ shifted (length s) (earliest_of limit x tags best)
unfolding earliest_of
earliest_of-shifted limit s x [] best h = refl
earliest_of-shifted limit s x (tag ∷ tags) best (h, hs) =
    ap (earliest_of (length s + limit) (s ++ x) tags) (
      ap (λ o. offer (length s + limit) tag o (shifted (length s) best)) (find_tag-later tag s x h)
      ∙ offer-shifted (length s) limit tag (find_tag tag x) best)
    ∙ earliest_of-shifted limit s x tags (offer limit tag (find_tag tag x) best) hs
