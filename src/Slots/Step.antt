-- ===== src/Slots/Step.antt =====
-- A step of the mixture-of-experts layer over the slots: SlotMgr::end_step (src/engine/slotmgr.cpp)
-- and the slot part of Runner::moe_ffn (src/engine/runner.cpp).
use helios_glm53flash.Prelude.{
  ℕ, suc, false, List, [], ◌∷◌, Option, none, some, get_elem?, set, ◌==◌, if◌then◌else◌,
}
use helios_glm53flash.Slots.State.{
  Expert, Slot, SlotMgr, begin_step, note_request, find, reserve, sync_copies,
}
use helios_glm53flash.Slots.Acquire.{acquire}

-- One round of `for (int i : used_) if (slots_[i].layer >= 0) slots_[i].busy = false`.
unfoldable pub unbusy : ℕ → List Slot → List Slot
unbusy i slots = elim (get_elem? slots i) [
  | none ↦ slots
  | some s ↦ elim s.owner [ none ↦ slots | some o ↦ set slots i (record s { busy = false }) ]
]

unfoldable pub unbusy_all : List ℕ → List Slot → List Slot
unbusy_all [] slots = slots
unbusy_all (i ∷ used) slots = unbusy_all used (unbusy i slots)

-- The bookkeeping of SlotMgr::end_step; its timed re-ranking and census save are not here.
unfoldable pub release_step : SlotMgr → SlotMgr
release_step m = record m { slots = unbusy_all m.used m.slots; used = [] }

-- One expert with tokens: it is counted, found and held, or acquired.
unfoldable pub want : Expert → SlotMgr → Option SlotMgr
want o m =
    let found = find o (note_request o m) in
    elim found.0 [
      | some i ↦ some (reserve i found.1)
      | none ↦ elim (acquire o found.1) [ none ↦ none | some (slot, m') ↦ some m' ]
    ]

-- The loop over the experts of a layer, with the device's token counts from expert `e` on.
unfoldable pub gather : ℕ → ℕ → List ℕ → SlotMgr → Option SlotMgr
gather layer e [] m = some m
gather layer e (count ∷ counts) m =
    if count == 0
    then gather layer (suc e) counts m
    else elim (want (layer, e) m) [ none ↦ none | some m' ↦ gather layer (suc e) counts m' ]

-- The first part of the slot work of a layer: begin, gather, and wait for the copies.
unfoldable pub load_experts : ℕ → List ℕ → SlotMgr → Option SlotMgr
load_experts layer counts m = elim (gather layer 0 counts (begin_step m)) [
  | none ↦ none
  | some m' ↦ some (sync_copies m')
]
