-- ===== src/Slots/Evicting.antt =====
-- `evict_one` over a pool with the invariant.
use helios_glm53flash.Prelude.{
  ℕ, ◌<◌, ◌≡◌, ◌⊎◌, refl, inl, inr, true, none, some, arith, get_elem?, Bool-cases,
}
use helios_glm53flash.Slots.State.{Slot, SlotMgr}
use helios_glm53flash.Slots.Evict.{evict_one, top64, not_busy, oldest}
use helios_glm53flash.Slots.Picks.{oldest-none}
use helios_glm53flash.Slots.Taking.{Taken, evict_one-Evicts}
use helios_glm53flash.Slots.Invariant.{Inv}

all_busy :
    (m : SlotMgr)
    → Inv m
    → m.clock < top64
    → oldest not_busy 0 m.slots none top64 ≡ none
    → (j : ℕ) (s : Slot) → get_elem? m.slots j ≡ some s
    → s.busy ≡ true
all_busy m h soon full j s e = elim (Bool-cases s.busy) [
  | inl busy ↦ busy
  | inr idle ↦ absurd (
      omega (arith, oldest-none not_busy 0 m.slots top64 full j s e (rw idle refl), h.recent j s e))
]

-- In a pool with the invariant whose clock is not at its end, `evict_one` takes a slot that was not
-- busy, empties it and forgets at most its key; or every slot is busy, and it changes nothing.
pub evict_one_lem :
    (m : SlotMgr)
    → Inv m
    → m.clock < top64
    → ((i : ℕ) × ((evict_one m).0 ≡ some i) × Taken m (evict_one m).1 i)
      ⊎ (((evict_one m).0 ≡ none)
          × ((evict_one m).1 ≡ m)
          × ((j : ℕ) (s : Slot) → get_elem? m.slots j ≡ some s → s.busy ≡ true))
evict_one_lem m h soon = elim (evict_one-Evicts m h.sound h.words) [
  | inl taken ↦ inl taken
  | inr (e, (same, full)) ↦ inr (e, same, all_busy m h soon full)
]
