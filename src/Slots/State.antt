-- ===== src/Slots/State.antt =====
-- The state of the slot manager and its small operations (src/engine/slotmgr.hpp, slotmgr.cpp).
-- A slot's layer and expert, -1 both when it is empty, are its `owner`, an option; an index of -1 is
-- `none`. The pool's memory is given by what was last copied into each slot. The clock and the heat
-- wrap as the source's words do; the statistics are plain numbers, and the count of pinned slots, which
-- is lowered only where a pinned slot is unpinned, stops at 0.
use helios_glm53flash.Prelude.{
  ℕ, ◌+◌, ◌-◌, ◌*◌, ◌%◌, ◌^◌, Bool, true, false, not, ◌&&◌, ◌||◌, List, [], ◌∷◌, ◌++◌, Option, none,
  some, get_elem?, set, ltb, leb, ◌==◌, if◌then◌else◌,
}

-- A tensor-namespace layer and an expert of it.
abbrev pub Expert : Type 0
Expert = ℕ × ℕ

abbrev pub wrap32 : ℕ → ℕ
wrap32 n = n % 2 ^ 32

abbrev pub wrap64 : ℕ → ℕ
wrap64 n = n % 2 ^ 64

pub record Slot : Type 0 where
  pub owner : Option Expert
  pub heat : ℕ
  pub last_used : ℕ
  pub pinned : Bool
  pub busy : Bool

pub record Stats : Type 0 where
  pub hits : ℕ
  pub misses : ℕ
  pub evictions : ℕ
  pub h2d_bytes : ℕ
  pub pinned_hits : ℕ
  pub lookups : ℕ
  pub resident_hits : ℕ

-- `slab_bytes` is the slab size of each layer, `Model::expert_layouts`; `held` is the pool's memory;
-- `census` is the counter table `freq_`, and `hot` its marks `hot_`.
pub record SlotMgr : Type 0 where
  pub slab_bytes : List ℕ
  pub stride : ℕ
  pub n_layer : ℕ
  pub max_pinned : ℕ
  pub slots : List Slot
  pub held : List (Option Expert)
  pub index : List (ℕ × ℕ)
  pub used : List ℕ
  pub pending : List ℕ
  pub clock : ℕ
  pub pinned_count : ℕ
  pub census : List ℕ
  pub hot : List Bool
  pub st : Stats

-- `map_`, from a key to a slot.
unfoldable pub find_key : ℕ → List (ℕ × ℕ) → Option ℕ
find_key k [] = none
find_key k ((j, i) ∷ entries) = if j == k then some i else find_key k entries

unfoldable pub erase_key : ℕ → List (ℕ × ℕ) → List (ℕ × ℕ)
erase_key k [] = []
erase_key k ((j, i) ∷ entries) =
    let rest = erase_key k entries in if j == k then rest else (j, i) ∷ rest

unfoldable pub set_key : ℕ → ℕ → List (ℕ × ℕ) → List (ℕ × ℕ)
set_key k i entries = (k, i) ∷ erase_key k entries

-- `((uint64_t)(uint32_t)layer << 32) | (uint32_t)expert`: the halves do not overlap.
abbrev pub key_of : Expert → ℕ
key_of (layer, expert) = wrap32 layer * 2 ^ 32 + wrap32 expert

abbrev pub experts_per_layer : ℕ
experts_per_layer = 288

-- `(size_t)layer * 288 + expert`
abbrev pub cell_of : Expert → ℕ
cell_of (layer, expert) = layer * experts_per_layer + expert

abbrev pub get_or {ℓ} : {A : Type ℓ} → Option A → A → A
get_or none d = d
get_or (some a) d = a

abbrev pub is_empty {ℓ} : {A : Type ℓ} → List A → Bool
is_empty [] = true
is_empty (x ∷ xs) = false

-- Whether a slot is on a list, as in `for (int u : used_) if (u == i)`.
unfoldable pub member : ℕ → List ℕ → Bool
member i [] = false
member i (u ∷ us) = if u == i then true else member i us

-- SlotMgr::is_hot
unfoldable pub is_hot : Expert → SlotMgr → Bool
is_hot (layer, expert) m =
    if is_empty m.hot || leb m.n_layer layer || leb experts_per_layer expert
    then false
    else get_or (get_elem? m.hot (cell_of (layer, expert))) false

-- SlotMgr::note_request
unfoldable pub note_request : Expert → SlotMgr → SlotMgr
note_request (layer, expert) m =
    if is_empty m.census || leb m.n_layer layer || leb experts_per_layer expert
    then m
    else let cell = cell_of (layer, expert) in
      elim (get_elem? m.census cell) [
        | none ↦ m
        | some n ↦ record m {
          census = if ltb n 0xffff_ffff then set m.census cell (n + 1) else m.census;
        }
      ]

-- What a hit does to the slot itself: `find` bumps its recency and its heat.
abbrev pub touched : ℕ → Slot → Slot
touched now s = record s {
  last_used = now;
  heat = if ltb s.heat 0xffff then s.heat + 1 else s.heat;
}

-- The pinning rule of `find`: a hot slot is pinned while the budget lasts, another is unpinned.
unfoldable pub repin : ℕ → Slot → Bool → SlotMgr → SlotMgr
repin i s is_hot m =
    if is_hot
    then if not s.pinned && ltb m.pinned_count m.max_pinned
      then record m {
        slots = set m.slots i (record s { pinned = true });
        pinned_count = m.pinned_count + 1;
        st = record (m.st) { pinned_hits = m.st.pinned_hits + 1 };
      }
      else record m { slots = set m.slots i s }
    else if s.pinned
    then record m {
      slots = set m.slots i (record s { pinned = false });
      pinned_count = m.pinned_count - 1;
    }
    else record m { slots = set m.slots i s }

-- A hit of `find` at slot `i`.
unfoldable pub hit : ℕ → Expert → SlotMgr → SlotMgr
hit i o m = elim (get_elem? m.slots i) [
  | none ↦ m
  | some s ↦
      let now = wrap64 (m.clock + 1) in
      repin i (touched now s) (is_hot o m) (record m {
        clock = now;
        st = record (m.st) { lookups = m.st.lookups + 1; resident_hits = m.st.resident_hits + 1 };
      })
]

-- SlotMgr::find
unfoldable pub find : Expert → SlotMgr → Option ℕ × SlotMgr
find o m = elim (find_key (key_of o) m.index) [
  | none ↦ (none, record m { st = record (m.st) { lookups = m.st.lookups + 1 } })
  | some i ↦ (some i, hit i o m)
]

-- SlotMgr::reserve
unfoldable pub reserve : ℕ → SlotMgr → SlotMgr
reserve i m = elim (get_elem? m.slots i) [
  | none ↦ m
  | some s ↦
      if s.busy
      then m
      else record m { slots = set m.slots i (record s { busy = true }); used = m.used ++ i ∷ [] }
]

-- SlotMgr::begin_step
unfoldable pub begin_step : SlotMgr → SlotMgr
begin_step m = record m { used = [] }

-- One round of the loop of `sync_copies`.
unfoldable pub release_unused : List ℕ → ℕ → List Slot → List Slot
release_unused used i slots = elim (get_elem? slots i) [
  | none ↦ slots
  | some s ↦ if member i used then slots else set slots i (record s { busy = false })
]

unfoldable pub release_all : List ℕ → List ℕ → List Slot → List Slot
release_all used [] slots = slots
release_all used (i ∷ pending) slots = release_all used pending (release_unused used i slots)

-- SlotMgr::sync_copies
unfoldable pub sync_copies : SlotMgr → SlotMgr
sync_copies m =
    if is_empty m.pending
    then m
    else record m { slots = release_all m.used m.pending m.slots; pending = [] }
