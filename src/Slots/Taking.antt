-- ===== src/Slots/Taking.antt =====
-- What `evict_one` gives: an empty slot taken from those that were not busy, with the index told,
-- or a pool left as it was in which every slot is busy.
use helios_glm53flash.Prelude.{
  ℕ, ◌-◌, ◌≡◌, ◌≢◌, ◌⊎◌, refl, ap, ◌∙◌, inl, inr, Bool, true, false, not, ◌||◌, List, Option, none,
  some, arith, length, get_elem?, set, Option-cases, get_elem?-set_self, get_elem?-set_ne,
  get_elem?-lt, length-set,
}
use helios_glm53flash.Slots.State.{Expert, Slot, SlotMgr, find_key, erase_key, key_of}
use helios_glm53flash.Slots.Evict.{
  Best, first_free, top64, coldest, oldest, not_busy, vacate, unpin, take_free, evict_occupied,
  evict_one,
}
use helios_glm53flash.Slots.Index.{find_key-erase_key}
use helios_glm53flash.Slots.Table.{Sound, bit, update-Sound, empty-Sound, pins-set}
use helios_glm53flash.Slots.Picks.{
  Words, first_free-picks, coldest-picks, coldest-none, oldest-picks,
}

abbrev pub SoundMgr : SlotMgr → Type 0
SoundMgr m = Sound m.index m.held m.slots m.pinned_count

-- Slot `i` was not busy; it is now empty and busy. All else is as it was, but for keys that the
-- index may have lost, the pins and the counters.
pub record Taken (m m' : SlotMgr) (i : ℕ) : Type 0 where
  pub before : Slot
  pub was : get_elem? m.slots i ≡ some before
  pub idle : before.busy ≡ false
  pub after : Slot
  pub now : get_elem? m'.slots i ≡ some after
  pub empty : after.owner ≡ none
  pub taken : after.busy ≡ true
  pub elsewhere : (j : ℕ) → i ≢ j → get_elem? m'.slots j ≡ get_elem? m.slots j
  pub as_many : length m'.slots ≡ length m.slots
  pub forgets : (k : ℕ) → find_key k m.index ≡ none → find_key k m'.index ≡ none
  pub sound : SoundMgr m'
  pub same_used : m'.used ≡ m.used
  pub same_clock : m'.clock ≡ m.clock
  pub same_census : m'.census ≡ m.census
  pub same_slabs : m'.slab_bytes ≡ m.slab_bytes
  pub same_stride : m'.stride ≡ m.stride

erase-forgets :
    (j k : ℕ) (entries : List (ℕ × ℕ))
    → find_key k entries ≡ none
    → find_key k (erase_key j entries) ≡ none
erase-forgets j k entries e = ground (arith, find_key-erase_key k j entries)

owner-forgets :
    (o : Option Expert) (k : ℕ) (entries : List (ℕ × ℕ))
    → find_key k entries ≡ none
    → find_key k (elim o [ none ↦ entries | some p ↦ erase_key (key_of p) entries ]) ≡ none
owner-forgets none k entries e = e
owner-forgets (some p) k entries e = erase-forgets (key_of p) k entries e

module _ (m : SlotMgr) (h : SoundMgr m) (i : ℕ) (s : Slot) (there : get_elem? m.slots i ≡ some s)
    (idle : s.busy ≡ false) where
  take_free-Taken : s.owner ≡ none → Taken m (take_free i m) i
  unfolding take_free
  take_free-Taken empty =
      let s' : Slot = record s { busy = true } in
      rw (there, take_free)
        (record {
          before = s;
          was = there;
          idle = idle;
          after = s';
          now = get_elem?-set_self m.slots i s' (get_elem?-lt m.slots i there);
          empty = empty;
          taken = refl;
          elsewhere = λ j p. get_elem?-set_ne m.slots i j s' p;
          as_many = length-set m.slots i s';
          forgets = λ k e. e;
          sound =
              update-Sound h i s s' m.pinned_count there refl (λ p. h.loose i s there empty) refl;
          same_used = refl;
          same_clock = refl;
          same_census = refl;
          same_slabs = refl;
          same_stride = refl;
        })

  vacate-Taken : s.pinned ≡ false → Taken m (vacate i m) i
  unfolding vacate
  vacate-Taken loose =
      let s' : Slot = record s { owner = none; heat = 0; busy = true } in
      rw (there, vacate)
        (record {
          before = s;
          was = there;
          idle = idle;
          after = s';
          now = get_elem?-set_self m.slots i s' (get_elem?-lt m.slots i there);
          empty = refl;
          taken = refl;
          elsewhere = λ j p. get_elem?-set_ne m.slots i j s' p;
          as_many = length-set m.slots i s';
          forgets = λ k e. owner-forgets s.owner k m.index e;
          sound = empty-Sound h i s s' there loose refl loose;
          same_used = refl;
          same_clock = refl;
          same_census = refl;
          same_slabs = refl;
          same_stride = refl;
        })

  -- A pinned slot is unpinned first.
  unpinned : SlotMgr
  unpinned = record m {
    slots = set m.slots i (record s { pinned = false });
    pinned_count = m.pinned_count - 1;
  }

  unpin-unpinned : unpin i m ≡ unpinned
  unfolding unpin unpinned
  unpin-unpinned = rw (there, unpin)

  unpinned-SoundMgr : s.pinned ≡ true → SoundMgr unpinned
  unfolding unpinned
  unpinned-SoundMgr pin =
      update-Sound h i s (record s { pinned = false }) (m.pinned_count - 1) there refl (λ p. refl)
        (omega
          (arith, h.counted, ap bit pin, pins-set m.slots i s (record s { pinned = false }) there))

-- A slot whose pin was dropped first was, too, a slot of the pool before.
drop_pinned-Taken :
    (m : SlotMgr) (h : SoundMgr m) (i : ℕ) (s : Slot)
    → get_elem? m.slots i ≡ some s
    → s.busy ≡ false
    → s.pinned ≡ true
    → Taken m (vacate i (unpin i m)) i
unfolding unpinned
drop_pinned-Taken m h i s there idle pin =
    let s' : Slot = record s { pinned = false } in
    let u = unpinned m h i s there idle in
    let at = get_elem?-set_self m.slots i s' (get_elem?-lt m.slots i there) in
    let t = vacate-Taken u (unpinned-SoundMgr m h i s there idle pin) i s' at idle refl in
    rw (unpin-unpinned m h i s there idle) (record {
      before = s;
      was = there;
      idle = idle;
      after = t.after;
      now = t.now;
      empty = t.empty;
      taken = t.taken;
      elsewhere = λ j p. t.elsewhere j p ∙ get_elem?-set_ne m.slots i j s' p;
      as_many = t.as_many ∙ length-set m.slots i s';
      forgets = t.forgets;
      sound = t.sound;
      same_used = t.same_used;
      same_clock = t.same_clock;
      same_census = t.same_census;
      same_slabs = t.same_slabs;
      same_stride = t.same_stride;
    })

-- What a failed scan says: the pool is as it was, and every slot is busy or used too lately.
abbrev pub Full : SlotMgr → SlotMgr → Type 0
Full m m' = (m' ≡ m) × (oldest not_busy 0 m.slots none top64 ≡ none)

abbrev pub Evicts : SlotMgr → Option ℕ × SlotMgr → Type 0
Evicts m r = ((i : ℕ) × (r.0 ≡ some i) × Taken m r.1 i) ⊎ ((r.0 ≡ none) × Full m r.1)

pinned_of_idle : (s : Slot) → (s.busy || s.pinned) ≡ true → s.busy ≡ false → s.pinned ≡ true
pinned_of_idle s h e = ground arith

not-true : (b : Bool) → not b ≡ true → b ≡ false
not-true b h = ground arith

-- The scan of `evict_occupied` by census starts open.
abbrev cold_scan : SlotMgr → Best
cold_scan m = coldest m.census 0 m.slots (record { slot = none; by_score = top64; by_heat = top64 })

evict_pinned :
    (m : SlotMgr)
    → SoundMgr m
    → Words m.census
    → (cold_scan m).slot ≡ none
    → Evicts m (elim (oldest not_busy 0 m.slots none top64) [
      | none ↦ (none, m)
      | some i ↦ (some i, vacate i (unpin i m))
    ])
evict_pinned m h w cold = elim (Option-cases (oldest not_busy 0 m.slots none top64)) [
  | inl e ↦ rw e (inr (refl, (refl, refl)))
  | inr (i, e) ↦ elim (oldest-picks not_busy 0 i m.slots none top64 e) [
    | inl no_best ↦ absurd (cc)
    | inr (p, ok) ↦
        let at : i ≡ p.offset = omega (arith, p.at) in
        let there = ap (get_elem? m.slots) at ∙ p.there in
        let idle = not-true p.slot.busy ok in
        let (_, _, held) =
          coldest-none m.census 0 m.slots
            (record { slot = none; by_score = top64; by_heat = top64 }) w refl cold in
        let pin = pinned_of_idle p.slot (held p.offset p.slot p.there) idle in
        rw e (inl (i, refl, drop_pinned-Taken m h i p.slot there idle pin))
  ]
]

evict_occupied-Evicts : (m : SlotMgr) → SoundMgr m → Words m.census → Evicts m (evict_occupied m)
unfolding evict_occupied
evict_occupied-Evicts m h w = elim (Option-cases (cold_scan m).slot) [
  | inl cold ↦
      let (_, heat, _) =
        coldest-none m.census 0 m.slots (record { slot = none; by_score = top64; by_heat = top64 })
          w refl cold in
      rw (cold, heat, evict_occupied) (evict_pinned m h w cold)
  | inr (i, e) ↦
      elim (coldest-picks m.census 0 i m.slots
        (record { slot = none; by_score = top64; by_heat = top64 }) e) [
          | inl no_best ↦ absurd (cc)
          | inr (p, idle, loose) ↦
              let at : i ≡ p.offset = omega (arith, p.at) in
              rw (e, evict_occupied)
                (inl (
                  i,
                  refl,
                  vacate-Taken m h i p.slot (ap (get_elem? m.slots) at ∙ p.there) idle loose,
                ))
        ]
]

-- `evict_one` takes a slot that was not busy, or finds every slot busy and changes nothing.
pub evict_one-Evicts : (m : SlotMgr) → SoundMgr m → Words m.census → Evicts m (evict_one m)
unfolding evict_one
evict_one-Evicts m h w = elim (Option-cases (first_free 0 m.slots)) [
  | inl e ↦ rw (e, evict_one) (evict_occupied-Evicts m h w)
  | inr (i, e) ↦
      let (p, empty, idle) = first_free-picks 0 i m.slots e in
      let at : i ≡ p.offset = omega (arith, p.at) in
      rw (e, evict_one)
        (inl
          (i, refl, take_free-Taken m h i p.slot (ap (get_elem? m.slots) at ∙ p.there) idle empty))
]
