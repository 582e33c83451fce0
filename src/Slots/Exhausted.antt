-- ===== src/Slots/Exhausted.antt =====
-- `acquire` when every slot is busy: the pool is exhausted, and neither the retry nor the fallback of
-- `acquire` finds a slot.
use helios_glm53flash.Prelude.{
  ℕ, ◌≡◌, refl, sym, ap, ◌∙◌, inl, inr, true, false, Option, none, some, arith, get_elem?,
  get_elem?-lt, Option-cases,
}
use helios_glm53flash.Slots.State.{Expert, Slot, SlotMgr, key_of, find_key, sync_copies}
use helios_glm53flash.Slots.Evict.{evict_one, top64, oldest, not_busy}
use helios_glm53flash.Slots.Acquire.{find_room, drop_oldest, fill, acquire}
use helios_glm53flash.Slots.Taking.{evict_one-Evicts}
use helios_glm53flash.Slots.Invariant.{slot_inj, Inv, Keeps}
use helios_glm53flash.Slots.Wanting.{get_elem?-some}
use helios_glm53flash.Slots.Loading.{sync_copies-Inv}

-- Every slot is busy.
abbrev pub AllBusy : SlotMgr → Type 0
AllBusy m = (j : ℕ) (s : Slot) → get_elem? m.slots j ≡ some s → s.busy ≡ true

-- What the step holds stays busy, so a full pool stays full.
Keeps-AllBusy : (m t : SlotMgr) → Inv m → Keeps m t → AllBusy m → AllBusy t
Keeps-AllBusy m t h keeps all j y e =
    let (s, there) =
      get_elem?-some m.slots j (omega (arith, keeps.as_many, get_elem?-lt t.slots j e)) in
    let busy = all j s there in
    elim (Option-cases s.owner) [
      | inl empty ↦ absurd ((h.listed j s there busy).1 empty)
      | inr (o, own) ↦
          let k = keeps.holds j o (record {
            slot = s;
            there = there;
            owner = o;
            owned = own;
            keyed = refl;
            busy = busy;
          }) in
          let same : k.slot ≡ y = slot_inj k.slot y (sym k.there ∙ e) in
          ap (λ (x : Slot). x.busy) (sym same) ∙ k.busy
    ]

abbrev nothing : Option ℕ
nothing = none

-- In a full pool `evict_one` finds nothing and changes nothing, and no slot is left for the fallback.
evict_full :
    (m : SlotMgr)
    → Inv m
    → AllBusy m
    → (evict_one m ≡ (none, m)) × (oldest not_busy 0 m.slots none top64 ≡ none)
evict_full m h all = elim (evict_one-Evicts m h.sound h.words) [
  | inl (i, e, k) ↦ let clash : true ≡ false = sym (all i k.before k.was) ∙ k.idle in absurd (cc)
  | inr (e, (same, full)) ↦ (pair_eq (evict_one m) m e same, full)
]
  where
    pair_eq : (r : Option ℕ × SlotMgr) (m : SlotMgr) → r.0 ≡ none → r.1 ≡ m → r ≡ (none, m)
    pair_eq (x, t) m e f = ap (λ (y : Option ℕ). (y, t)) e ∙ ap (λ (z : SlotMgr). (nothing, z)) f

-- The tries of `find_room`, given what the one before gave.
abbrev second_try : Option ℕ × SlotMgr → Option ℕ × SlotMgr
second_try second = elim second.0 [ some i ↦ second | none ↦ drop_oldest second.1 ]

abbrev first_try : Option ℕ × SlotMgr → Option ℕ × SlotMgr
first_try first = elim first.0 [
  | some i ↦ first
  | none ↦ second_try (evict_one (sync_copies first.1))
]

drop_oldest-none :
    (m : SlotMgr) → oldest not_busy 0 m.slots none top64 ≡ none → drop_oldest m ≡ (none, m)
unfolding drop_oldest
drop_oldest-none m full = rw (full, drop_oldest) refl

find_room_full : (m : SlotMgr) → Inv m → AllBusy m → find_room m ≡ (none, sync_copies m)
unfolding find_room
find_room_full m h all =
    let (inv, keeps) = sync_copies-Inv m h in
    let (first, _) = evict_full m h all in
    let (second, full) =
      evict_full (sync_copies m) inv (Keeps-AllBusy m (sync_copies m) h keeps all) in
    ap first_try first ∙ (ap second_try second ∙ drop_oldest-none (sync_copies m) full)

-- In a full pool, for an expert that the index does not know, `acquire` reports that the pool is
-- exhausted: it has waited for the copies, and the invariant holds with every slot still busy.
pub acquire_exhausted :
    (m : SlotMgr)
    → Inv m
    → (o : Expert) → find_key (key_of o) m.index ≡ none
    → AllBusy m
    → (acquire o m ≡ some (none, sync_copies m)) × Inv (sync_copies m) × AllBusy (sync_copies m)
unfolding acquire fill
acquire_exhausted m h o fresh all =
    let (inv, keeps) = sync_copies-Inv m h in
    (
      rw (fresh, find_room_full m h all, acquire, fill) refl,
      inv,
      Keeps-AllBusy m (sync_copies m) h keeps all,
    )
