-- ===== src/Slots/Ending.antt =====
-- The end of a step leaves the pool idle, with the invariant.
use helios_glm53flash.Prelude.{
  ℕ, ◌≡◌, ◌⊎◌, refl, sym, ap, ◌∙◌, inl, inr, true, false, List, [], ◌∷◌, Option, none, some, arith,
  get_elem?, set, ◌==◌, Bool-cases, Option-cases,
}
use helios_glm53flash.Slots.State.{Expert, Slot, SlotMgr, member}
use helios_glm53flash.Slots.Step.{unbusy, unbusy_all, release_step}
use helios_glm53flash.Slots.Invariant.{slot_inj, Inv}
use helios_glm53flash.Slots.Update.{Update, Update-Inv}
use helios_glm53flash.Slots.Loading.{Idle}
use helios_glm53flash.Slots.Table.{set_cases}

unbusy-result :
    (i : ℕ) (slots : List Slot)
    → ((unbusy i slots ≡ slots) × ((s : Slot) → get_elem? slots i ≡ some s → s.owner ≡ none))
      ⊎ ((s : Slot) × (get_elem? slots i ≡ some s)
          × (unbusy i slots ≡ set slots i (record s { busy = false })))
unfolding unbusy
unbusy-result i slots = elim (Option-cases (get_elem? slots i)) [
  | inl gone ↦
      inl (rw (gone, unbusy) refl, λ s e. let clash : none ≡ some s = sym gone ∙ e in absurd (cc))
  | inr (s, at) ↦ elim (Option-cases s.owner) [
    | inl empty ↦ inl (
      rw (at, unbusy) (rw empty refl),
      λ x e. ap (λ (z : Slot). z.owner) (slot_inj x s (sym e ∙ at)) ∙ empty,
    )
    | inr (o, own) ↦ inr (s, at, rw (at, unbusy) (owned_result s slots i o own))
  ]
]
  where
    owned_result :
        (s : Slot) (slots : List Slot) (i : ℕ) (o : Expert)
        → s.owner ≡ some o
        → (elim s.owner as (λ x. List Slot) [
          | none ↦ slots
          | some o ↦ set slots i (record s { busy = false })
        ])
          ≡ set slots i (record s { busy = false })
    owned_result s slots i o own =
        ap
          (λ (x : Option Expert). elim x as (λ x. List Slot) [
            | none ↦ slots
            | some o ↦ set slots i (record s { busy = false })
          ])
          own

-- A slot of the pool after `unbusy i`: one that was there, or one that is not busy.
unbusy_cases :
    (i j : ℕ) (slots : List Slot) (y : Slot)
    → get_elem? (unbusy i slots) j ≡ some y
    → ((get_elem? slots j ≡ some y) × ((i ≡ j) → y.owner ≡ none)) ⊎ (y.busy ≡ false)
unbusy_cases i j slots y e = elim (unbusy-result i slots) [
  | inl (same, empty) ↦
      let at = ap (λ x. get_elem? x j) (sym same) ∙ e in
      inl (at, λ p. empty y (ap (get_elem? slots) p ∙ at))
  | inr (s, at, new) ↦
      elim (set_cases slots i j y (record s { busy = false })
        (ap (λ x. get_elem? x j) (sym new) ∙ e)) [
          | inl (p, q) ↦ inr (ap (λ (z : Slot). z.busy) (sym q))
          | inr (p, q) ↦ inl (q, λ r. absurd (p r))
        ]
]

unbusy_all_cases :
    (used : List ℕ) (j : ℕ) (slots : List Slot) (y : Slot)
    → get_elem? (unbusy_all used slots) j ≡ some y
    → ((get_elem? slots j ≡ some y) × (member j used ≡ true → y.owner ≡ none)) ⊎ (y.busy ≡ false)
unfolding unbusy_all member
unbusy_all_cases [] j slots y e = inl (e, λ p. absurd (cc))
unbusy_all_cases (i ∷ used) j slots y e = elim (unbusy_all_cases used j (unbusy i slots) y e) [
  | inr idle ↦ inr idle
  | inl (at, later) ↦ elim (unbusy_cases i j slots y at) [
    | inr idle ↦ inr idle
    | inl (before, here) ↦ inl (
      before,
      λ on. elim (Bool-cases (i == j)) [
        | inl same ↦ here (ground arith)
        | inr other ↦ later (rw other at on)
      ],
    )
  ]
]

abbrev with_slots : SlotMgr → List Slot → SlotMgr
with_slots m slots = record m { slots = slots }

unbusied-Update :
    (m : SlotMgr) (i : ℕ) (s : Slot)
    → Inv m
    → get_elem? m.slots i ≡ some s
    → Update m
        (with_slots m (set m.slots i (record s { busy = false })))
        i
        s
        (record s { busy = false })
unbusied-Update m i s h e = record {
  there = e;
  replaced = refl;
  same_owner = refl;
  loose = h.sound.loose i s e;
  adjusted = refl;
  listed = λ b. absurd (cc);
  more_used = λ j on. on;
  later = omega arith;
  dated = h.recent i s e;
  same_index = refl;
  same_held = refl;
  same_census = refl;
  same_slabs = refl;
  same_stride = refl;
}

unbusy-Inv :
    (m : SlotMgr) (i : ℕ) (slots : List Slot)
    → unbusy i m.slots ≡ slots
    → Inv m
    → Inv (with_slots m slots)
unbusy-Inv m i slots eq h = elim (unbusy-result i m.slots) [
  | inl (same, _) ↦ rw (sym eq ∙ same) h
  | inr (s, e, new) ↦ rw (sym eq ∙ new) (Update-Inv h (unbusied-Update m i s h e))
]

unbusy_all-Inv :
    (m : SlotMgr) (used : List ℕ) → Inv m → Inv (with_slots m (unbusy_all used m.slots))
unfolding unbusy_all
unbusy_all-Inv m [] h = h
unbusy_all-Inv m (i ∷ used) h =
    unbusy_all-Inv (with_slots m (unbusy i m.slots)) used (unbusy-Inv m i (unbusy i m.slots) refl h)

release_step_idles : (m : SlotMgr) → Inv m → Idle (release_step m)
unfolding release_step
release_step_idles m h j y e = elim (unbusy_all_cases m.used j m.slots y e) [
  | inr idle ↦ idle
  | inl (at, empty) ↦ elim (Bool-cases y.busy) [
    | inr idle ↦ idle
    | inl busy ↦ let (on, own) = h.listed j y at busy in absurd (own (empty on))
  ]
]

-- The end of a step of a pool with the invariant keeps it, and no slot is busy after it.
pub release_step-Idle : (m : SlotMgr) → Inv m → Inv (release_step m) × Idle (release_step m)
unfolding release_step
release_step-Idle m h =
    let inv = unbusy_all-Inv m m.used h in
    let idle = release_step_idles m h in
    (
      record {
        sound = inv.sound;
        words = inv.words;
        listed = λ j s e b. let clash : true ≡ false = sym b ∙ idle j s e in absurd (cc);
        recent = inv.recent;
      },
      idle,
    )
