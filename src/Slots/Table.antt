-- ===== src/Slots/Table.antt =====
-- The slot table: what one update of a slot does to the owners, to the number of pinned slots and
-- to the slots that the current step holds.
use helios_glm53flash.Prelude.{
  ℕ, zero, suc, ◌+◌, ◌≡◌, ◌≢◌, ◌⊎◌, refl, sym, ap, ◌∙◌, inl, inr, Bool, true, false, List, [], ◌∷◌,
  Option, none, some, map, arith, length, get_elem?, set, get_elem?-lt, length-set, Option-cases,
}
use helios_glm53flash.Slots.State.{Expert, Slot, key_of, erase_key, set_key, find_key}
use helios_glm53flash.Slots.Index.{Agree, evict-Agree, install-Agree}

abbrev pub owners : List Slot → List (Option Expert)
owners slots = map (λ s. s.owner) slots

abbrev pub bit : Bool → ℕ
bit true = 1
bit false = 0

-- How many slots are pinned.
abbrev pub pins : List Slot → ℕ
pins [] = 0
pins (s ∷ slots) = bit s.pinned + pins slots

pub owners-set :
    (slots : List Slot) (i : ℕ) (s : Slot) → owners (set slots i s) ≡ set (owners slots) i s.owner
owners-set [] i s = refl
owners-set (x ∷ slots) zero s = refl
owners-set (x ∷ slots) (suc i) s = ap (◌∷◌ x.owner) (owners-set slots i s)

pub owners-get :
    (slots : List Slot) (i : ℕ) {s : Slot}
    → get_elem? slots i ≡ some s
    → get_elem? (owners slots) i ≡ some s.owner
owners-get [] i e = absurd (cc)
owners-get (x ∷ slots) zero e = ground arith
owners-get (x ∷ slots) (suc i) e = owners-get slots i e

pub owners-set_same :
    (slots : List Slot) (i : ℕ) (s s' : Slot)
    → get_elem? slots i ≡ some s
    → s'.owner ≡ s.owner
    → owners (set slots i s') ≡ owners slots
owners-set_same [] i s s' e h = refl
owners-set_same (x ∷ slots) zero s s' e h = ground arith
owners-set_same (x ∷ slots) (suc i) s s' e h = ap (◌∷◌ x.owner) (owners-set_same slots i s s' e h)

pub pins-set :
    (slots : List Slot) (i : ℕ) (s s' : Slot)
    → get_elem? slots i ≡ some s
    → pins (set slots i s') + bit s.pinned ≡ pins slots + bit s'.pinned
pins-set [] i s s' e = absurd (cc)
pins-set (x ∷ slots) zero s s' e =
    let same : bit x.pinned ≡ bit s.pinned = ground arith in omega arith
pins-set (x ∷ slots) (suc i) s s' e = omega (arith, pins-set slots i s s' e)

pub length-owners : (slots : List Slot) → length (owners slots) ≡ length slots
length-owners [] = refl
length-owners (x ∷ slots) = ap suc (length-owners slots)

-- A slot after an update is the new one, or an old one elsewhere.
pub set_cases :
    (slots : List Slot) (i j : ℕ) (s s' : Slot)
    → get_elem? (set slots i s') j ≡ some s
    → ((i ≡ j) × (s' ≡ s)) ⊎ ((i ≢ j) × (get_elem? slots j ≡ some s))
set_cases [] i j s s' e = absurd (cc)
set_cases (x ∷ slots) zero zero s s' e = inl (refl, ground arith)
set_cases (x ∷ slots) zero (suc j) s s' e = inr (λ p. cc, e)
set_cases (x ∷ slots) (suc i) zero s s' e = inr (λ p. cc, e)
set_cases (x ∷ slots) (suc i) (suc j) s s' e = elim (set_cases slots i j s s' e) [
  | inl (p, q) ↦ inl (ap suc p, q)
  | inr (p, q) ↦ inr (λ r. p (omega arith), q)
]

-- The core of the invariant: index, owners and memory agree, the count of pinned slots is right,
-- the memory has a place for each slot, and an empty slot is not pinned.
pub record Sound (index : List (ℕ × ℕ)) (held : List (Option Expert)) (slots : List Slot)
    (count : ℕ) : Type 0 where
  pub agree : Agree index (owners slots) held
  pub counted : count ≡ pins slots
  pub sized : length held ≡ length slots
  pub loose : (i : ℕ) (s : Slot) → get_elem? slots i ≡ some s → s.owner ≡ none → s.pinned ≡ false

module _ {index : List (ℕ × ℕ)} {held : List (Option Expert)} {slots : List Slot} {count : ℕ}
    (h : Sound index held slots count) where
  loose_set :
      (i : ℕ) (s' : Slot)
      → (s'.owner ≡ none → s'.pinned ≡ false)
      → (j : ℕ) (s : Slot) → get_elem? (set slots i s') j ≡ some s
      → s.owner ≡ none
      → s.pinned ≡ false
  loose_set i s' fine j s e o = elim (set_cases slots i j s s' e) [
    | inl (p, q) ↦ rw (← q) (fine (ap (λ (x : Slot). x.owner) q ∙ o))
    | inr (p, q) ↦ h.loose j s q o
  ]

  -- An update that leaves the owner alone, with the count adjusted by the pin.
  pub update-Sound :
      (i : ℕ) (s s' : Slot) (count' : ℕ)
      → get_elem? slots i ≡ some s
      → s'.owner ≡ s.owner
      → (s'.owner ≡ none → s'.pinned ≡ false)
      → count' + bit s.pinned ≡ count + bit s'.pinned
      → Sound index held (set slots i s') count'
  update-Sound i s s' count' e same fine adjusted = record {
    agree = rw (owners-set_same slots i s s' e same) h.agree;
    counted = omega (arith, adjusted, h.counted, pins-set slots i s s' e);
    sized = h.sized ∙ sym (length-set slots i s');
    loose = loose_set i s' fine;
  }

  -- Emptying an unpinned slot, with its expert out of the index.
  pub empty-Sound :
      (i : ℕ) (s s' : Slot)
      → get_elem? slots i ≡ some s
      → s.pinned ≡ false
      → s'.owner ≡ none
      → s'.pinned ≡ false
      → Sound
          (elim s.owner [ none ↦ index | some o ↦ erase_key (key_of o) index ])
          held
          (set slots i s')
          count
  empty-Sound i s s' e free gone loose' = elim (Option-cases s.owner) [
    | inl none_there ↦
        rw none_there (
          update-Sound i s s' count e (gone ∙ sym none_there) (λ x. loose')
            (rw (free, loose') refl))
    | inr (o, there) ↦ rw there (record {
      agree =
          rw (owners-set slots i s', gone)
            (evict-Agree h.agree i o (owners-get slots i e ∙ ap some there));
      counted = omega (arith, h.counted, pins-set slots i s s' e, ap bit free, ap bit loose');
      sized = h.sized ∙ sym (length-set slots i s');
      loose = loose_set i s' (λ x. loose');
    })
  ]

  -- Filling an empty slot with an expert that the index does not know.
  pub fill-Sound :
      (i : ℕ) (o : Expert) (s s' : Slot)
      → get_elem? slots i ≡ some s
      → s.owner ≡ none
      → s'.owner ≡ some o
      → s'.pinned ≡ s.pinned
      → find_key (key_of o) index ≡ none
      → Sound (set_key (key_of o) i index) (set held i (some o)) (set slots i s') count
  fill-Sound i o s s' e empty new pin fresh = record {
    agree =
        rw (owners-set slots i s', new)
          (install-Agree h.agree i o (owners-get slots i e ∙ ap some empty) fresh
            (omega (arith, h.sized, get_elem?-lt slots i e)));
    counted = omega (arith, h.counted, pins-set slots i s s' e, ap bit pin);
    sized = length-set held i (some o) ∙ h.sized ∙ sym (length-set slots i s');
    loose = loose_set i s' (λ x. absurd (some_not_none o (sym new ∙ x)));
  }
    where
      some_not_none : (p : Expert) → some p ≢ none
      some_not_none p q = cc
