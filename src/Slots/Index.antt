-- ===== src/Slots/Index.antt =====
-- The slot index `map_` against the owners of the slots and the memory of the pool: when they agree,
-- and that evicting and installing an expert keep them so.
use helios_glm53flash.Prelude.{
  ℕ, zero, suc, ◌<◌, ◌≡◌, ◌≢◌, refl, sym, ap, ◌∙◌, ◌⊎◌, inl, inr, List, [], ◌∷◌, Option, none, some,
  arith, length, get_elem?, set, ◌==◌, if◌then◌else◌, ==_refl, get_elem?-set_self, get_elem?-set_ne,
  get_elem?-lt,
}
use native.Mathlib.Decide.{ℕ_discrete}
use helios_glm53flash.Slots.State.{Expert, find_key, erase_key, set_key, key_of}

pub find_key-erase_key :
    (k j : ℕ) (entries : List (ℕ × ℕ))
    → find_key k (erase_key j entries) ≡ (if j == k then none else find_key k entries)
unfolding find_key erase_key
find_key-erase_key k j [] = ground arith
find_key-erase_key k j ((a, i) ∷ entries) = ground (arith, find_key-erase_key k j entries)

pub find_key-set_key :
    (k j i : ℕ) (entries : List (ℕ × ℕ))
    → find_key k (set_key j i entries) ≡ (if j == k then some i else find_key k entries)
unfolding find_key set_key
find_key-set_key k j i entries = ground (arith, find_key-erase_key k j entries)

erase_key-some :
    (k j i : ℕ) (entries : List (ℕ × ℕ))
    → find_key k (erase_key j entries) ≡ some i
    → (j ≢ k) × (find_key k entries ≡ some i)
erase_key-some k j i entries e = ground (arith, find_key-erase_key k j entries)

erase_key-other :
    (k j : ℕ) (entries : List (ℕ × ℕ))
    → j ≢ k
    → find_key k (erase_key j entries) ≡ find_key k entries
erase_key-other k j entries e = ground (arith, find_key-erase_key k j entries)

set_key-some :
    (k j i a : ℕ) (entries : List (ℕ × ℕ))
    → find_key k (set_key j a entries) ≡ some i
    → ((j ≡ k) × (a ≡ i)) ⊎ ((j ≢ k) × (find_key k entries ≡ some i))
set_key-some k j i a entries e = elim (ℕ_discrete j k) [
  | yes same ↦ inl (same, ground (arith, find_key-set_key k j a entries))
  | no other ↦ inr (other, ground (arith, find_key-set_key k j a entries))
]

set_key-other :
    (k j a : ℕ) (entries : List (ℕ × ℕ))
    → j ≢ k
    → find_key k (set_key j a entries) ≡ find_key k entries
set_key-other k j a entries e = ground (arith, find_key-set_key k j a entries)

set-none :
    (owners : List (Option Expert)) (i j : ℕ) (o : Expert)
    → get_elem? (set owners i none) j ≡ some (some o)
    → (i ≢ j) × (get_elem? owners j ≡ some (some o))
set-none [] i j o e = absurd (cc)
set-none (x ∷ xs) zero zero o e = absurd (ground arith)
set-none (x ∷ xs) zero (suc j) o e = (λ p. cc, e)
set-none (x ∷ xs) (suc i) zero o e = (λ p. cc, e)
set-none (x ∷ xs) (suc i) (suc j) o e =
    let rest = set-none xs i j o e in (λ p. rest.0 (omega arith), rest.1)

set-some :
    (owners : List (Option Expert)) (i j : ℕ) (o o' : Expert)
    → get_elem? (set owners i (some o)) j ≡ some (some o')
    → ((i ≡ j) × (o ≡ o')) ⊎ ((i ≢ j) × (get_elem? owners j ≡ some (some o')))
set-some [] i j o o' e = absurd (cc)
set-some (x ∷ xs) zero zero o o' e = inl (refl, ground arith)
set-some (x ∷ xs) zero (suc j) o o' e = inr (λ p. cc, e)
set-some (x ∷ xs) (suc i) zero o o' e = inr (λ p. cc, e)
set-some (x ∷ xs) (suc i) (suc j) o o' e = elim (set-some xs i j o o' e) [
  | inl (p, q) ↦ inl (ap suc p, q)
  | inr (p, q) ↦ inr (λ r. p (omega arith), q)
]

-- The index, the owners and the memory tell the same story.
pub record Agree (index : List (ℕ × ℕ)) (owners held : List (Option Expert)) : Type 0 where
  -- An entry of the index names a slot whose expert has that key,
  pub keyed :
      (k i : ℕ)
      → find_key k index ≡ some i
      → (o : Expert) × (get_elem? owners i ≡ some (some o)) × (key_of o ≡ k)
  -- every slot with an expert has its entry,
  pub mapped :
      (i : ℕ) (o : Expert) → get_elem? owners i ≡ some (some o) → find_key (key_of o) index ≡ some i
  -- and the slab of its expert is what was copied into it.
  pub filled :
      (i : ℕ) (o : Expert) → get_elem? owners i ≡ some (some o) → get_elem? held i ≡ some (some o)

some-some_inj : (a b : Expert) → some (some a) ≡ some (some b) → a ≡ b
some-some_inj a b e = ground arith

same_owner :
    (owners : List (Option Expert)) (i j : ℕ) (o o' : Expert)
    → get_elem? owners i ≡ some (some o)
    → get_elem? owners j ≡ some (some o')
    → i ≡ j
    → o ≡ o'
same_owner owners i j o o' e f p = some-some_inj o o' (sym e ∙ ap (get_elem? owners) p ∙ f)

none_not_some : (o : Expert) → some none ≢ some (some o)
none_not_some o e = ground arith

empty_slot :
    (owners : List (Option Expert)) (i j : ℕ) (o : Expert)
    → get_elem? owners i ≡ some none
    → get_elem? owners j ≡ some (some o)
    → i ≢ j
empty_slot owners i j o e f p = none_not_some o (sym e ∙ ap (get_elem? owners) p ∙ f)

set_key_self : (k i : ℕ) (entries : List (ℕ × ℕ)) → find_key k (set_key k i entries) ≡ some i
set_key_self k i entries = find_key-set_key k k i entries ∙ rw (==_refl k)

absent_key :
    (k k' j : ℕ) (entries : List (ℕ × ℕ))
    → find_key k entries ≡ none
    → find_key k' entries ≡ some j
    → k ≢ k'
absent_key k k' j entries e f p =
    let clash : none ≡ some j = sym e ∙ ap (λ x. find_key x entries) p ∙ f in cc

module _ {index : List (ℕ × ℕ)} {owners held : List (Option Expert)}
    (h : Agree index owners held) where
  same_slot :
      (i j : ℕ) (o o' : Expert)
      → get_elem? owners i ≡ some (some o)
      → get_elem? owners j ≡ some (some o')
      → key_of o ≡ key_of o'
      → i ≡ j
  same_slot i j o o' e f k = ground (arith, h.mapped i o e, h.mapped j o' f, k)

  -- Evicting the expert of a slot.
  pub evict-Agree :
      (i : ℕ) (o : Expert)
      → get_elem? owners i ≡ some (some o)
      → Agree (erase_key (key_of o) index) (set owners i none) held
  evict-Agree i o e = record {
    keyed = λ k j f.
        let (other, old) = erase_key-some k (key_of o) j index f in
        let (o', at, key) = h.keyed k j old in
        elim (ℕ_discrete i j) [
          | yes here ↦ absurd (other (ap key_of (same_owner owners i j o o' e at here) ∙ key))
          | no there ↦ (o', get_elem?-set_ne owners i j none there ∙ at, key)
        ];
    mapped = λ j o' f.
        let (other, at) = set-none owners i j o' f in
        erase_key-other (key_of o') (key_of o) index (λ k. other (same_slot i j o o' e at k))
        ∙ h.mapped j o' at;
    filled = λ j o' f. h.filled j o' (set-none owners i j o' f).1;
  }

  -- Installing an expert that the index does not know in an empty slot.
  pub install-Agree :
      (i : ℕ) (o : Expert)
      → get_elem? owners i ≡ some none
      → find_key (key_of o) index ≡ none
      → i < length held
      → Agree (set_key (key_of o) i index) (set owners i (some o)) (set held i (some o))
  install-Agree i o e fresh room = record {
    keyed = λ k j f. elim (set_key-some k (key_of o) j i index f) [
      | inl (same, at) ↦ (
        o,
        ap (get_elem? (set owners i (some o))) (sym at)
            ∙ get_elem?-set_self owners i (some o) (get_elem?-lt owners i e),
        same,
      )
      | inr (other, old) ↦
          let (o', at, key) = h.keyed k j old in
          (o', get_elem?-set_ne owners i j (some o) (empty_slot owners i j o' e at) ∙ at, key)
    ];
    mapped = λ j o' f. elim (set-some owners i j o o' f) [
      | inl (p, q) ↦
          ap (λ (x : Expert). find_key (key_of x) (set_key (key_of o) i index)) (sym q)
          ∙ set_key_self (key_of o) i index
          ∙ ap some p
      | inr (p, q) ↦
          set_key-other (key_of o') (key_of o) i index
            (absent_key (key_of o) (key_of o') j index fresh (h.mapped j o' q))
          ∙ h.mapped j o' q
    ];
    filled = λ j o' f. elim (set-some owners i j o o' f) [
      | inl (p, q) ↦
          ap (get_elem? (set held i (some o))) (sym p)
          ∙ get_elem?-set_self held i (some o) room
          ∙ ap (λ (x : Expert). some (some x)) q
      | inr (p, q) ↦ get_elem?-set_ne held i j (some o) p ∙ h.filled j o' q
    ];
  }
