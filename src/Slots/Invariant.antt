-- ===== src/Slots/Invariant.antt =====
-- The invariant of the slot manager, and the slots that the current step holds.
use helios_glm53flash.Prelude.{
  ℕ, zero, suc, ◌+◌, ◌^◌, ◌≤◌, ◌<◌, ◌≡◌, ◌≢◌, refl, sym, ap, ◌∙◌, inl, inr, true, ◌||◌, List, [],
  ◌∷◌, ◌++◌, none, some, arith, length, get_elem?, set, ltb, leb, Bool-cases, Option-cases,
  get_elem?-set_self, get_elem?-set_ne, get_elem?-lt,
}
use native.Mathlib.Decide.{ℕ_discrete}
use helios_glm53flash.Slots.State.{
  Expert, Slot, SlotMgr, member, key_of, cell_of, note_request, is_empty,
}
use helios_glm53flash.Slots.Picks.{Words}
use helios_glm53flash.Slots.Taking.{SoundMgr}

pub record Inv (m : SlotMgr) : Type 0 where
  -- The index, the owners, the memory and the pin count agree; the counters are words.
  pub sound : SoundMgr m
  pub words : Words m.census
  -- A busy slot has an expert and is on the list of the current step.
  pub listed :
      (j : ℕ) (s : Slot)
      → get_elem? m.slots j ≡ some s
      → s.busy ≡ true
      → (member j m.used ≡ true) × (s.owner ≢ none)
  -- No slot was used after now.
  pub recent : (j : ℕ) (s : Slot) → get_elem? m.slots j ≡ some s → s.last_used ≤ m.clock

-- Slot `j` holds expert `o`, which its key stands for, for the current step.
pub record Holds (m : SlotMgr) (j : ℕ) (o : Expert) : Type 0 where
  pub slot : Slot
  pub there : get_elem? m.slots j ≡ some slot
  pub owner : Expert
  pub owned : slot.owner ≡ some owner
  pub keyed : key_of owner ≡ key_of o
  pub busy : slot.busy ≡ true

-- What a call of the step leaves standing: what the step holds, and the sizes.
pub record Keeps (m m' : SlotMgr) : Type 0 where
  pub holds : (j : ℕ) (o : Expert) → Holds m j o → Holds m' j o
  pub as_many : length m'.slots ≡ length m.slots
  pub same_slabs : m'.slab_bytes ≡ m.slab_bytes
  pub same_stride : m'.stride ≡ m.stride

pub Keeps-trans : {a b c : SlotMgr} → Keeps a b → Keeps b c → Keeps a c
Keeps-trans p q = record {
  holds = λ j o h. q.holds j o (p.holds j o h);
  as_many = q.as_many ∙ p.as_many;
  same_slabs = q.same_slabs ∙ p.same_slabs;
  same_stride = q.same_stride ∙ p.same_stride;
}

pub slot_inj : (s x : Slot) → some s ≡ some x → s ≡ x
slot_inj s x e = ground arith

-- A slot with the same owner, still busy if it was, may stand in for the old one.
pub set-holds :
    (slots : List Slot) (i : ℕ) (s s' : Slot)
    → get_elem? slots i ≡ some s
    → s'.owner ≡ s.owner
    → (s.busy ≡ true → s'.busy ≡ true)
    → (j : ℕ) (o : Expert) (x : Slot) → get_elem? slots j ≡ some x
    → x.owner ≡ some o
    → x.busy ≡ true
    → (y : Slot) × (get_elem? (set slots i s') j ≡ some y) × (y.owner ≡ some o) × (y.busy ≡ true)
set-holds slots i s s' e same still j o x at own busy = elim (ℕ_discrete i j) [
  | yes here ↦
      let there = ap (get_elem? slots) here in
      let eq : s ≡ x = slot_inj s x (sym e ∙ there ∙ at) in
      (
        s',
        ap (get_elem? (set slots i s')) (sym here)
            ∙ get_elem?-set_self slots i s' (get_elem?-lt slots i e),
        same ∙ ap (λ (z : Slot). z.owner) eq ∙ own,
        still (ap (λ (z : Slot). z.busy) eq ∙ busy),
      )
  | no other ↦ (x, get_elem?-set_ne slots i j s' other ∙ at, own, busy)
]

pub member-append : (j : ℕ) (us vs : List ℕ) → member j us ≡ true → member j (us ++ vs) ≡ true
unfolding member
member-append j [] vs h = absurd (cc)
member-append j (u ∷ us) vs h = ground (arith, member-append j us vs)

pub member-last : (j : ℕ) (us : List ℕ) → member j (us ++ j ∷ []) ≡ true
unfolding member
member-last j [] = ground arith
member-last j (u ∷ us) = ground (arith, member-last j us)

set-Words : (census : List ℕ) (i n : ℕ) → n < 2 ^ 32 → Words census → Words (set census i n)
set-Words [] i n h w = tt
set-Words (c ∷ census) zero n h w = (h, w.1)
set-Words (c ∷ census) (suc i) n h w = (w.0, set-Words census i n h w.1)

-- Counting a request touches nothing but the census, whose words saturate.
pub note_request-frame :
    (o : Expert) (m : SlotMgr)
    → let t = note_request o m in
      (t.slots ≡ m.slots)
      × (t.index ≡ m.index)
      × (t.held ≡ m.held)
      × (t.used ≡ m.used)
      × (t.clock ≡ m.clock)
      × (t.pinned_count ≡ m.pinned_count)
      × (t.slab_bytes ≡ m.slab_bytes)
      × (t.stride ≡ m.stride)
      × (Words m.census → Words t.census)
unfolding note_request
note_request-frame (layer, expert) m =
    elim (Bool-cases (is_empty m.census || leb m.n_layer layer || leb 288 expert)) [
      | inl out ↦ rw out (refl, refl, refl, refl, refl, refl, refl, refl, λ w. w)
      | inr fits ↦ elim (Option-cases (get_elem? m.census (cell_of (layer, expert)))) [
        | inl e ↦ rw (fits, e) (refl, refl, refl, refl, refl, refl, refl, refl, λ w. w)
        | inr (n, e) ↦ elim (Bool-cases (ltb n 0xffff_ffff)) [
          | inl more ↦
              rw (fits, e)
                (rw more (
                  refl,
                  refl,
                  refl,
                  refl,
                  refl,
                  refl,
                  refl,
                  refl,
                  set-Words m.census (cell_of (layer, expert)) (n + 1) (ground arith),
                ))
          | inr top ↦ rw (fits, e) (rw top (refl, refl, refl, refl, refl, refl, refl, refl, λ w. w))
        ]
      ]
    ]

pub note_request-Inv :
    (o : Expert) (m : SlotMgr) → Inv m → Inv (note_request o m) × Keeps m (note_request o m)
note_request-Inv o m h =
    let (sl, ix, he, us, cl, pc, sb, st, wd) = note_request-frame o m in
    (
      record {
        sound = rw (sl, ix, he, pc) h.sound;
        words = wd h.words;
        listed = rw (sl, us) h.listed;
        recent = rw (sl, cl) h.recent;
      },
      record {
        holds = λ j x k. record {
          slot = k.slot;
          there = rw sl k.there;
          owner = k.owner;
          owned = k.owned;
          keyed = k.keyed;
          busy = k.busy;
        };
        as_many = ap length sl;
        same_slabs = sb;
        same_stride = st;
      },
    )
