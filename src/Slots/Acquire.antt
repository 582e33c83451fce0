-- ===== src/Slots/Acquire.antt =====
-- SlotMgr::acquire, start_copy and force_resident (src/engine/slotmgr.cpp). A result of `none` on
-- the outside is a program that aborts or throws; on the inside it is the slot index -1.
use helios_glm53flash.Prelude.{
  ℕ, zero, suc, ◌+◌, ◌-◌, Bool, false, not, List, [], ◌∷◌, ◌++◌, Option, none, some, get_elem?, set,
  ltb, if◌then◌else◌,
}
use helios_glm53flash.Slots.State.{
  Expert, Slot, SlotMgr, find_key, set_key, key_of, wrap32, wrap64, member, find, sync_copies,
}
use helios_glm53flash.Slots.Evict.{top64, not_busy, oldest, vacate, unpin, evict_one}

-- SlotMgr::start_copy. The slab of the expert is on its way into the slot; a slab wider than a slot
-- aborts, a layer out of range throws. The optional count of streams per layer is left out.
unfoldable pub start_copy : ℕ → Expert → SlotMgr → Option SlotMgr
start_copy i o m = elim (get_elem? m.slab_bytes o.0) [
  | none ↦ none
  | some bytes ↦
      if ltb m.stride bytes
      then none
      else some (record m {
        held = set m.held i (some o);
        pending = m.pending ++ i ∷ [];
        st = record (m.st) { h2d_bytes = m.st.h2d_bytes + bytes; misses = m.st.misses + 1 };
      })
]

-- A hit of `acquire` at slot `i`.
unfoldable pub reuse : ℕ → SlotMgr → SlotMgr
reuse i m = elim (get_elem? m.slots i) [
  | none ↦ m
  | some s ↦
      let now = wrap64 (m.clock + 1) in
      record m {
        clock = now;
        slots = set m.slots i (record s { last_used = now; heat = wrap32 (s.heat + 1) });
        used = m.used ++ i ∷ [];
        st = record (m.st) {
          hits = m.st.hits + 1;
          pinned_hits = if s.pinned then m.st.pinned_hits + 1 else m.st.pinned_hits;
        };
      }
]

-- The last resort of `acquire`: the least recently used slot that is not busy, pinned or not.
unfoldable pub drop_oldest : SlotMgr → Option ℕ × SlotMgr
drop_oldest m = elim (oldest not_busy 0 m.slots none top64) [
  | none ↦ (none, m)
  | some i ↦ (some i, vacate i (unpin i m))
]

-- A slot to fill: evict; or drain the copies and evict; or the last resort.
unfoldable pub find_room : SlotMgr → Option ℕ × SlotMgr
find_room m =
    let first = evict_one m in
    elim first.0 [
      | some i ↦ first
      | none ↦
          let second = evict_one (sync_copies first.1) in
          elim second.0 [ some i ↦ second | none ↦ drop_oldest second.1 ]
    ]

-- Enter the expert into slot `i`, and mark the slot used by this step.
unfoldable pub install : ℕ → Expert → SlotMgr → SlotMgr
install i o m = elim (get_elem? m.slots i) [
  | none ↦ m
  | some s ↦
      let now = wrap64 (m.clock + 1) in
      record m {
        clock = now;
        slots = set m.slots i (record s { owner = some o; last_used = now; heat = 1 });
        index = set_key (key_of o) i m.index;
        used = m.used ++ i ∷ [];
      }
]

unfoldable pub fill : Expert → Option ℕ × SlotMgr → Option (Option ℕ × SlotMgr)
fill o (none, m) = some (none, m)
fill o (some i, m) = elim (start_copy i o (install i o m)) [
  | none ↦ none
  | some m' ↦ some (some i, m')
]

-- SlotMgr::acquire
unfoldable pub acquire : Expert → SlotMgr → Option (Option ℕ × SlotMgr)
acquire o m = elim (find_key (key_of o) m.index) [
  | some i ↦ some (some i, reuse i m)
  | none ↦ fill o (find_room m)
]

-- Make slot `i` evictable, whatever holds it.
unfoldable pub expose : ℕ → SlotMgr → SlotMgr
expose i m = elim (get_elem? m.slots i) [
  | none ↦ m
  | some s ↦ record m {
    slots = set m.slots i (record s { pinned = false; busy = false });
    pinned_count = if s.pinned then m.pinned_count - 1 else m.pinned_count;
  }
]

abbrev pub not_used : List ℕ → ℕ → Slot → Bool
not_used used i s = not (member i used)

-- The attempts of `force_resident`, with the attempts left.
unfoldable pub force_from : ℕ → Expert → SlotMgr → Option (Option ℕ × SlotMgr)
force_from zero o m = some (none, m)
force_from (suc attempts) o m = elim (oldest (not_used m.used) 0 m.slots none top64) [
  | none ↦ some (none, m)
  | some i ↦ elim (acquire o (expose i m)) [
    | none ↦ none
    | some (slot, m') ↦ elim slot [ none ↦ force_from attempts o m' | some j ↦ some (some j, m') ]
  ]
]

-- SlotMgr::force_resident
unfoldable pub force_resident : Expert → SlotMgr → Option (Option ℕ × SlotMgr)
force_resident o m =
    let found = find o m in elim found.0 [ some i ↦ some found | none ↦ force_from 4 o found.1 ]
