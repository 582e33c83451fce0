-- ===== src/Slots/Evict.antt =====
-- SlotMgr::evict_one (src/engine/slotmgr.cpp): a free slot, else the lowest census score, else the
-- least recently used slot that is not busy.
use helios_glm53flash.Prelude.{
  ℕ, suc, ◌+◌, ◌-◌, ◌^◌, Bool, true, false, not, ◌&&◌, ◌||◌, List, [], ◌∷◌, Option, none, some,
  get_elem?, set, ltb, ◌==◌, if◌then◌else◌,
}
use helios_glm53flash.Slots.State.{Slot, SlotMgr, erase_key, key_of, cell_of, get_or}

abbrev pub is_free : Slot → Bool
is_free s = elim s.owner [ none ↦ not s.busy | some o ↦ false ]

-- The first free slot, counting from `i`.
unfoldable pub first_free : ℕ → List Slot → Option ℕ
first_free i [] = none
first_free i (s ∷ slots) = if is_free s then some i else first_free (suc i) slots

-- `~0ull`
abbrev pub top64 : ℕ
top64 = 2 ^ 64 - 1

-- The census count of a slot's expert, 0 where there is none.
unfoldable pub score : List ℕ → Slot → ℕ
score census s = elim s.owner [ none ↦ 0 | some o ↦ get_or (get_elem? census (cell_of o)) 0 ]

-- The candidate of a scan, with its score and its tie-breaker.
pub record Best : Type 0 where
  pub slot : Option ℕ
  pub by_score : ℕ
  pub by_heat : ℕ

-- One round of the scan by census: busy and pinned slots are passed over.
unfoldable pub colder : List ℕ → ℕ → Slot → Best → Best
colder census i s b =
    if s.busy || s.pinned
    then b
    else let sc = score census s in
      if ltb sc b.by_score || (sc == b.by_score && ltb s.heat b.by_heat)
      then record { slot = some i; by_score = sc; by_heat = s.heat }
      else b

unfoldable pub coldest : List ℕ → ℕ → List Slot → Best → Best
coldest census i [] b = b
coldest census i (s ∷ slots) b = coldest census (suc i) slots (colder census i s b)

-- The least recently used slot among those that `allowed` admits, from `best_t` down.
unfoldable pub oldest : (ℕ → Slot → Bool) → ℕ → List Slot → Option ℕ → ℕ → Option ℕ
oldest allowed i [] best best_t = best
oldest allowed i (s ∷ slots) best best_t =
    let take_it = allowed i s && ltb s.last_used best_t in
    oldest allowed (suc i) slots (if take_it then some i else best)
      (if take_it then s.last_used else best_t)

abbrev pub not_busy : ℕ → Slot → Bool
not_busy i s = not s.busy

-- Drop the expert of slot `i`, and take the slot.
unfoldable pub vacate : ℕ → SlotMgr → SlotMgr
vacate i m = elim (get_elem? m.slots i) [
  | none ↦ m
  | some s ↦ record m {
    slots = set m.slots i (record s { owner = none; heat = 0; busy = true });
    index = elim s.owner [ none ↦ m.index | some o ↦ erase_key (key_of o) m.index ];
    st = record (m.st) { evictions = m.st.evictions + 1 };
  }
]

-- `slots_[best].pinned = false; pinned_count_--`
unfoldable pub unpin : ℕ → SlotMgr → SlotMgr
unpin i m = elim (get_elem? m.slots i) [
  | none ↦ m
  | some s ↦ record m {
    slots = set m.slots i (record s { pinned = false });
    pinned_count = m.pinned_count - 1;
  }
]

-- Take a free slot: only its busy mark changes.
unfoldable pub take_free : ℕ → SlotMgr → SlotMgr
take_free i m = elim (get_elem? m.slots i) [
  | none ↦ m
  | some s ↦ record m { slots = set m.slots i (record s { busy = true }) }
]

-- The second and third scan, when no slot is free.
unfoldable pub evict_occupied : SlotMgr → Option ℕ × SlotMgr
evict_occupied m =
    let cold =
      coldest m.census 0 m.slots (record { slot = none; by_score = top64; by_heat = top64 }) in
    elim cold.slot [
      | some i ↦ (some i, vacate i m)
      | none ↦ elim (oldest not_busy 0 m.slots none cold.by_heat) [
        | none ↦ (none, m)
        | some i ↦ (some i, vacate i (unpin i m))
      ]
    ]

unfoldable pub evict_one : SlotMgr → Option ℕ × SlotMgr
evict_one m = elim (first_free 0 m.slots) [
  | some i ↦ (some i, take_free i m)
  | none ↦ evict_occupied m
]
