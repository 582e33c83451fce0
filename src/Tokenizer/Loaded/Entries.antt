-- ===== src/Tokenizer/Loaded/Entries.antt =====
-- Entries of a table, and what a lookup finds among them.
use helios_glm53flash.Prelude.{
  ℕ, zero, suc, ◌≡◌, ◌≢◌, ◌⊎◌, refl, sym, inl, inr, List, [], ◌∷◌, some, get_elem?, Bool-cases, All,
  same_words, same_words-eq, same_words_refl,
}
use helios_glm53flash.Tokenizer.Vocab.{Table, find_in}

-- An entry of a table.
abbrev pub In : List ℕ → ℕ → Table → Type 0
In key id m = (j : ℕ) × (get_elem? m j ≡ some (key, id))

-- No two entries have the same id.
abbrev pub Distinct : Table → Type 0
Distinct [] = Unit
Distinct ((key, id) ∷ m) = All (λ (k, i). i ≢ id) m × Distinct m

pub found-In : (m : Table) (key : List ℕ) (id : ℕ) → find_in m key ≡ some id → In key id m
unfolding find_in
found-In [] key id = λ e. absurd (cc e)
found-In ((k, v) ∷ m) key id = elim (Bool-cases (same_words k key)) [
  | inl same ↦ rw same (λ e. (0, cc (same_words-eq k key same, e)))
  | inr other ↦ rw other (λ e. let (j, at) = found-In m key id e in (suc j, at))
]

-- A write to a table is found, or an earlier one.
pub find_in-cases :
    (k : List ℕ) (v : ℕ) (m : Table) (key : List ℕ) (id : ℕ)
    → find_in ((k, v) ∷ m) key ≡ some id
    → ((k ≡ key) × (v ≡ id)) ⊎ (find_in m key ≡ some id)
unfolding find_in
find_in-cases k v m key id = elim (Bool-cases (same_words k key)) [
  | inl same ↦ rw same (λ h. inl (same_words-eq k key same, cc h))
  | inr other ↦ rw other (λ h. inr h)
]

pub In-found :
    (m : Table) (key : List ℕ) (id : ℕ) → In key id m → (v : ℕ) × (find_in m key ≡ some v)
unfolding find_in
In-found [] key id (j, at) = absurd (cc at)
In-found ((k, v) ∷ m) key id (zero, at) =
    let e : k ≡ key = cc in (v, rw (sym e) (rw (same_words_refl k) refl))
In-found ((k, v) ∷ m) key id (suc j, at) =
    let (w, found) = In-found m key id (j, at) in
    elim (Bool-cases (same_words k key)) [
      | inl same ↦ (v, rw same refl)
      | inr other ↦ (w, rw other found)
    ]

pub All-In :
    (m : Table) (P : List ℕ × ℕ → Type 0) (key : List ℕ) (id : ℕ)
    → All P m
    → In key id m
    → P (key, id)
All-In [] P key id h (j, at) = absurd (cc at)
All-In (e ∷ m) P key id (h, hs) (zero, at) = let same : e ≡ (key, id) = cc in rw (sym same) h
All-In (e ∷ m) P key id (h, hs) (suc j, at) = All-In m P key id hs (j, at)

-- After a write, what was found still is, and so is what was written.
pub write_known :
    (k : List ℕ) (v : ℕ) (m rest : Table) (key : List ℕ)
    → ((w : ℕ) × (find_in m key ≡ some w)) ⊎ ((id : ℕ) × In key id ((k, v) ∷ rest))
    → ((w : ℕ) × (find_in ((k, v) ∷ m) key ≡ some w)) ⊎ ((id : ℕ) × In key id rest)
unfolding find_in
write_known k v m rest key (inl (w, found)) = elim (Bool-cases (same_words k key)) [
  | inl same ↦ inl (v, rw same refl)
  | inr other ↦ inl (w, rw other found)
]
write_known k v m rest key (inr (id, (zero, at))) =
    let e : k ≡ key = cc in inl (v, rw (sym e) (rw (same_words_refl k) refl))
write_known k v m rest key (inr (id, (suc j, at))) = inr (id, (j, at))
