-- ===== src/Images/Cache.antt =====
-- The cache of encoded images: its byte count, its budget and its order of eviction.
use helios_glm53flash.Prelude.{
  same_words, same_words-eq, ℕ, zero, suc, ◌+◌, ◌≤◌, ◌≡◌, refl, sym, ap, ◌∙◌, inl, inr, List, [],
  ◌∷◌, none, some, arith, length, take, Bool-cases, All,
}
use helios_glm53flash.Images.{
  Entry, ImageEmbeddingCache, find_entry, erase_entry, back, pop_back, weight,
}

abbrev pub total : List Entry → ℕ
total [] = 0
total (e ∷ entries) = e.bytes + total entries

-- No two entries have the same URL.
abbrev pub Distinct : List Entry → Type 0
Distinct [] = Unit
Distinct (e ∷ entries) = (find_entry e.url entries ≡ none) × Distinct entries

-- The byte count is that of the entries, within the budget; each entry is weighed right, and no URL
-- has two.
pub record Wf (c : ImageEmbeddingCache) : Type 0 where
  pub counted : c.bytes ≡ total c.entries
  pub within : c.bytes ≤ c.budget
  pub weighed : All (λ (e : Entry). e.bytes ≡ weight e.url e.image) c.entries
  pub distinct : Distinct c.entries

pub total-erase_entry :
    (url : List ℕ) (entries : List Entry) (e : Entry)
    → find_entry url entries ≡ some e
    → total entries ≡ e.bytes + total (erase_entry url entries)
unfolding find_entry erase_entry
total-erase_entry url [] e h = absurd (cc)
total-erase_entry url (d ∷ entries) e h = elim (Bool-cases (same_words d.url url)) [
  | inl same ↦
      let one : d ≡ e = ground arith in rw same (ap (λ (x : Entry). x.bytes + total entries) one)
  | inr differ ↦
      let rest = total-erase_entry url entries e (rw differ at h) in rw differ (omega (arith, rest))
]

pub total-pop_back :
    (e : Entry) (entries : List Entry)
    → total (e ∷ entries) ≡ (back e entries).bytes + total (pop_back e entries)
unfolding back pop_back
total-pop_back e [] = refl
total-pop_back e (d ∷ entries) = omega (arith, total-pop_back d entries)

pub pop_back-take :
    (e : Entry) (entries : List Entry) → pop_back e entries ≡ take (length entries) (e ∷ entries)
unfolding pop_back
pop_back-take e [] = refl
pop_back-take e (d ∷ entries) = ap (◌∷◌ e) (pop_back-take d entries)

-- Keys absent from a list are absent from what is left of it.
pub find_entry-take :
    (url : List ℕ) (k : ℕ) (entries : List Entry)
    → find_entry url entries ≡ none
    → find_entry url (take k entries) ≡ none
unfolding find_entry
find_entry-take url zero entries h = refl
find_entry-take url (suc k) [] h = refl
find_entry-take url (suc k) (e ∷ entries) h = ground (arith, find_entry-take url k entries)

find_entry-erase_entry :
    (url gone : List ℕ) (entries : List Entry)
    → find_entry url entries ≡ none
    → find_entry url (erase_entry gone entries) ≡ none
unfolding find_entry erase_entry
find_entry-erase_entry url gone [] h = refl
find_entry-erase_entry url gone (e ∷ entries) h =
    ground (arith, find_entry-erase_entry url gone entries)

pub erase_entry_self :
    (url : List ℕ) (entries : List Entry)
    → Distinct entries
    → find_entry url (erase_entry url entries) ≡ none
unfolding find_entry erase_entry
erase_entry_self url [] d = refl
erase_entry_self url (e ∷ entries) (first, rest) = elim (Bool-cases (same_words e.url url)) [
  | inl same ↦ rw same (ap (λ u. find_entry u entries) (sym (same_words-eq e.url url same)) ∙ first)
  | inr differ ↦ rw differ (rw differ (erase_entry_self url entries rest))
]

pub Distinct-take : (k : ℕ) (entries : List Entry) → Distinct entries → Distinct (take k entries)
Distinct-take zero entries d = tt
Distinct-take (suc k) [] d = tt
Distinct-take (suc k) (e ∷ entries) (first, rest) =
    (find_entry-take e.url k entries first, Distinct-take k entries rest)

pub Distinct-erase_entry :
    (url : List ℕ) (entries : List Entry) → Distinct entries → Distinct (erase_entry url entries)
unfolding erase_entry
Distinct-erase_entry url [] d = tt
Distinct-erase_entry url (e ∷ entries) (first, rest) = elim (Bool-cases (same_words e.url url)) [
  | inl same ↦ rw same rest
  | inr differ ↦
      rw differ
        (find_entry-erase_entry e.url url entries first, Distinct-erase_entry url entries rest)
]

abbrev pub Weighed : List Entry → Type 0
Weighed entries = All (λ (e : Entry). e.bytes ≡ weight e.url e.image) entries

pub Weighed-take : (k : ℕ) (entries : List Entry) → Weighed entries → Weighed (take k entries)
Weighed-take zero entries w = tt
Weighed-take (suc k) [] w = tt
Weighed-take (suc k) (e ∷ entries) (first, rest) = (first, Weighed-take k entries rest)

pub Weighed-erase_entry :
    (url : List ℕ) (entries : List Entry) → Weighed entries → Weighed (erase_entry url entries)
unfolding erase_entry
Weighed-erase_entry url [] w = tt
Weighed-erase_entry url (e ∷ entries) (first, rest) = elim (Bool-cases (same_words e.url url)) [
  | inl same ↦ rw same rest
  | inr differ ↦ rw differ (first, Weighed-erase_entry url entries rest)
]

pub find_entry-Weighed :
    (url : List ℕ) (entries : List Entry) (e : Entry)
    → Weighed entries
    → find_entry url entries ≡ some e
    → (e.bytes ≡ weight e.url e.image) × (e.url ≡ url)
unfolding find_entry
find_entry-Weighed url [] e w h = absurd (cc)
find_entry-Weighed url (d ∷ entries) e (first, rest) h = elim (Bool-cases (same_words d.url url)) [
  | inl same ↦ let one : d ≡ e = ground arith in rw (← one) (first, same_words-eq d.url url same)
  | inr differ ↦ find_entry-Weighed url entries e rest (rw differ at h)
]
