-- ===== src/Slots/Loading.antt =====
-- Waiting for the copies keeps what the step holds; and the loop and the wait together, the slot work
-- before a layer's experts run.
use helios_glm53flash.Prelude.{
  ℕ, ◌+◌, ◌≤◌, ◌<◌, ◌≡◌, ◌≢◌, ◌⊎◌, refl, sym, ap, ◌∙◌, inl, inr, true, false, List, [], ◌∷◌, some,
  arith, length, get_elem?, set, Bool-cases, Option-cases,
}
use helios_glm53flash.Slots.State.{
  Expert, Slot, SlotMgr, member, key_of, find_key, begin_step, sync_copies, release_all,
  release_unused, is_empty,
}
use helios_glm53flash.Slots.Evict.{top64}
use helios_glm53flash.Slots.Step.{load_experts}
use helios_glm53flash.Slots.Invariant.{Inv, Holds, Keeps, Keeps-trans}
use helios_glm53flash.Slots.Update.{Update, Update-Inv, Update-Keeps}
use helios_glm53flash.Slots.Finding.{Keeps-refl}
use helios_glm53flash.Slots.Table.{owners-get}
use helios_glm53flash.Slots.Gather.{gather-Held, wanted, LayerFits, AllHeld}

-- The slots of a pool with others in their place.
abbrev with_slots : SlotMgr → List Slot → SlotMgr
with_slots m slots = record m { slots = slots }

release_cases :
    (used : List ℕ) (i : ℕ) (slots : List Slot)
    → (release_unused used i slots ≡ slots)
      ⊎ ((s : Slot) × (get_elem? slots i ≡ some s)
          × (member i used ≡ false)
          × (release_unused used i slots ≡ set slots i (record s { busy = false })))
unfolding release_unused
release_cases used i slots = elim (Option-cases (get_elem? slots i)) [
  | inl e ↦ inl (rw (e, release_unused) refl)
  | inr (s, e) ↦ elim (Bool-cases (member i used)) [
    | inl on ↦ inl (rw (e, on, release_unused) refl)
    | inr off ↦ inr (s, e, off, rw (e, off, release_unused) refl)
  ]
]

-- A slot that the step does not use is not busy, so releasing it changes nothing of note.
released-Update :
    (m : SlotMgr) (i : ℕ) (s : Slot)
    → Inv m
    → get_elem? m.slots i ≡ some s
    → member i m.used ≡ false
    → Update m
        (with_slots m (set m.slots i (record s { busy = false })))
        i
        s
        (record s { busy = false })
released-Update m i s h e off = record {
  there = e;
  replaced = refl;
  same_owner = refl;
  loose = h.sound.loose i s e;
  adjusted = refl;
  listed = λ b. absurd (cc);
  more_used = λ j on. on;
  later = omega arith;
  dated = h.recent i s e;
  same_index = refl;
  same_held = refl;
  same_census = refl;
  same_slabs = refl;
  same_stride = refl;
}

not_busy_unused :
    (m : SlotMgr) (i : ℕ) (s : Slot)
    → Inv m
    → get_elem? m.slots i ≡ some s
    → member i m.used ≡ false
    → s.busy ≢ true
not_busy_unused m i s h e off b = let clash : true ≡ false = sym (h.listed i s e b).0 ∙ off in cc

release_unused-Inv :
    (m : SlotMgr) (i : ℕ) (slots : List Slot)
    → release_unused m.used i m.slots ≡ slots
    → Inv m
    → Inv (with_slots m slots) × Keeps m (with_slots m slots)
release_unused-Inv m i slots eq h = elim (release_cases m.used i m.slots) [
  | inl same ↦ rw (sym eq ∙ same) (h, Keeps-refl m)
  | inr (s, e, off, new) ↦
      let u = released-Update m i s h e off in
      rw (sym eq ∙ new)
        (Update-Inv h u, Update-Keeps h u (λ b. absurd (not_busy_unused m i s h e off b)))
]

release_all-Inv :
    (m : SlotMgr) (pending : List ℕ)
    → Inv m
    → (let t = with_slots m (release_all m.used pending m.slots) in Inv t × Keeps m t)
unfolding release_all
release_all-Inv m [] h = (h, Keeps-refl m)
release_all-Inv m (i ∷ pending) h =
    let (inv, keeps) = release_unused-Inv m i (release_unused m.used i m.slots) refl h in
    let (inv', keeps') =
      release_all-Inv (with_slots m (release_unused m.used i m.slots)) pending inv in
    (inv', Keeps-trans keeps keeps')

pub sync_copies-Inv : (m : SlotMgr) → Inv m → Inv (sync_copies m) × Keeps m (sync_copies m)
unfolding sync_copies
sync_copies-Inv m h = elim (Bool-cases (is_empty m.pending)) [
  | inl e ↦ rw (e, sync_copies) (h, Keeps-refl m)
  | inr e ↦
      let (inv, keeps) = release_all-Inv m m.pending h in
      rw (e, sync_copies)
        (
          record { sound = inv.sound; words = inv.words; listed = inv.listed; recent = inv.recent },
          record {
            holds = λ j o k.
                let k' = keeps.holds j o k in
                record {
                  slot = k'.slot;
                  there = k'.there;
                  owner = k'.owner;
                  owned = k'.owned;
                  keyed = k'.keyed;
                  busy = k'.busy;
                };
            as_many = keeps.as_many;
            same_slabs = keeps.same_slabs;
            same_stride = keeps.same_stride;
          },
        )
]

-- Between two steps no slot is busy.
abbrev pub Idle : SlotMgr → Type 0
Idle m = (j : ℕ) (s : Slot) → get_elem? m.slots j ≡ some s → s.busy ≡ false

begin_step-Inv : (m : SlotMgr) → Inv m → Idle m → Inv (begin_step m)
unfolding begin_step
begin_step-Inv m h idle = record {
  sound = h.sound;
  words = h.words;
  listed = λ j s e b. let clash : true ≡ false = sym b ∙ idle j s e in absurd (cc);
  recent = h.recent;
}

-- The index sends the key of each expert with tokens to a slot, and the memory of that slot holds the
-- slab of an expert with that key.
abbrev pub Serves : SlotMgr → ℕ → List ℕ → Type 0
Serves m layer counts =
    (x c : ℕ)
    → get_elem? counts x ≡ some c
    → c ≢ 0
    → (j : ℕ) × (p : Expert) × (find_key (key_of (layer, x)) m.index ≡ some j)
      × (get_elem? m.held j ≡ some (some p))
      × (key_of p ≡ key_of (layer, x))

Holds-Serves :
    (m : SlotMgr) (j : ℕ) (o : Expert)
    → Inv m
    → Holds m j o
    → (p : Expert) × (find_key (key_of o) m.index ≡ some j)
      × (get_elem? m.held j ≡ some (some p))
      × (key_of p ≡ key_of o)
Holds-Serves m j o h k =
    let at = owners-get m.slots j k.there ∙ ap some k.owned in
    (
      k.owner,
      ap (λ x. find_key x m.index) (sym k.keyed) ∙ h.sound.agree.mapped j k.owner at,
      h.sound.agree.filled j k.owner at,
      k.keyed,
    )

AllHeld-Serves :
    (m t : SlotMgr) (layer : ℕ) (counts : List ℕ)
    → Inv t
    → Keeps m t
    → AllHeld m layer 0 counts
    → Serves t layer counts
AllHeld-Serves m t layer counts h keeps all x c at some_c =
    let (j, k) = all x c at some_c in
    let start : 0 + x ≡ x = omega arith in
    let k' : Holds m j (layer, x) = rw (← start) k in
    let (p, found, there, key) = Holds-Serves t j (layer, x) h (keeps.holds j (layer, x) k') in
    (j, p, found, there, key)

-- From an idle pool with the invariant, a slot for each expert with tokens, slabs that fit and a clock
-- that is not about to wrap, the experts of a layer are loaded: the result exists, keeps the invariant
-- and serves every expert with tokens.
pub load_experts-Serves :
    (layer : ℕ) (counts : List ℕ) (m : SlotMgr)
    → Inv m
    → Idle m
    → LayerFits m layer
    → wanted counts ≤ length m.slots
    → m.clock + wanted counts < top64
    → (m' : SlotMgr) × (load_experts layer counts m ≡ some m') × Inv m' × Serves m' layer counts
unfolding load_experts begin_step
load_experts-Serves layer counts m h idle f room ticks =
    let b = begin_step m in
    let (t, e, inv, keeps, all) =
      gather-Held layer 0 counts b (begin_step-Inv m h idle)
        (record { bytes = f.bytes; known = f.known; narrow = f.narrow }) (omega (arith, room))
        ticks in
    let (inv', keeps') = sync_copies-Inv t inv in
    (
      sync_copies t,
      rw (e, load_experts) refl,
      inv',
      AllHeld-Serves t (sync_copies t) layer counts inv' keeps' all,
    )
