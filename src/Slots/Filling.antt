-- ===== src/Slots/Filling.antt =====
-- `acquire` gives a slot for an expert that the index does not know while some slot is not busy.
use helios_glm53flash.Prelude.{
  ℕ, ◌+◌, ◌^◌, ◌≤◌, ◌<◌, ◌≡◌, ◌≢◌, ◌⊎◌, refl, sym, ap, ◌∙◌, inl, inr, true, false, List, [], ◌∷◌,
  ◌++◌, Option, none, some, arith, length, get_elem?, set, ltb, length-append, get_elem?-set_self,
  get_elem?-set_ne, get_elem?-lt, length-set,
}
use helios_glm53flash.Slots.State.{Expert, Slot, SlotMgr, member, key_of, find_key, set_key, wrap64}
use helios_glm53flash.Slots.Evict.{top64, not_busy, evict_one}
use helios_glm53flash.Slots.Acquire.{start_copy, find_room, install, fill, acquire}
use helios_glm53flash.Slots.Table.{fill-Sound, set_cases}
use helios_glm53flash.Slots.Picks.{oldest-none}
use helios_glm53flash.Slots.Taking.{Taken, evict_one-Evicts}
use helios_glm53flash.Slots.Invariant.{Inv, Holds, Keeps, slot_inj, member-append, member-last}
use helios_glm53flash.Slots.Finding.{Held, some_ne}

-- The slab of the expert's layer is known, and no wider than a slot.
pub record Fits (m : SlotMgr) (o : Expert) : Type 0 where
  pub bytes : ℕ
  pub known : get_elem? m.slab_bytes o.0 ≡ some bytes
  pub narrow : bytes ≤ m.stride

-- Some slot is not busy.
pub record Spare (m : SlotMgr) : Type 0 where
  pub at : ℕ
  pub slot : Slot
  pub there : get_elem? m.slots at ≡ some slot
  pub idle : slot.busy ≡ false

keep_first :
    (r other : Option ℕ × SlotMgr) (i : ℕ)
    → r.0 ≡ some i
    → (elim r.0 [ some j ↦ r | none ↦ other ]) ≡ r
keep_first (none, m) other i e = absurd (cc)
keep_first (some j, m) other i e = refl

-- With a spare slot the first try of `find_room` takes one.
find_room-Taken :
    (m : SlotMgr)
    → Inv m
    → m.clock < top64
    → Spare m
    → (i : ℕ) × ((find_room m).0 ≡ some i) × Taken m (find_room m).1 i
unfolding find_room
find_room-Taken m h soon spare = elim (evict_one-Evicts m h.sound h.words) [
  | inl (i, e, t) ↦
      let first : find_room m ≡ evict_one m = keep_first (evict_one m) _ i e in
      (i, ap (λ (x : Option ℕ × SlotMgr). x.0) first ∙ e, rw first t)
  | inr (e, (same, full)) ↦
      let late : top64 ≤ spare.slot.last_used =
        oldest-none not_busy 0 m.slots top64 full spare.at spare.slot spare.there
          (rw spare.idle refl) in
      absurd (omega (arith, late, h.recent spare.at spare.slot spare.there))
]

-- The pool after slot `i` of `t`, taken, is filled with expert `o`.
module _ (m t : SlotMgr) (h : Inv m) (i : ℕ) (o : Expert) (k : Taken m t i)
    (fresh : find_key (key_of o) m.index ≡ none) (fits : Fits m o)
    (room : m.clock + 1 < 2 ^ 64) where
  abbrev filled_slot : Slot
  filled_slot = record (k.after) { owner = some o; last_used = t.clock + 1; heat = 1 }

  abbrev installed : SlotMgr
  installed = record t {
    clock = t.clock + 1;
    slots = set t.slots i filled_slot;
    index = set_key (key_of o) i t.index;
    used = t.used ++ i ∷ [];
  }

  abbrev filled : SlotMgr
  filled = record installed {
    held = set t.held i (some o);
    pending = t.pending ++ i ∷ [];
    st = record (t.st) { h2d_bytes = t.st.h2d_bytes + fits.bytes; misses = t.st.misses + 1 };
  }

  install-installed : install i o t ≡ installed
  unfolding install
  install-installed =
      let tick : wrap64 (t.clock + 1) ≡ t.clock + 1 = ground arith in rw (k.now, tick, install) refl

  start_copy-filled : start_copy i o installed ≡ some filled
  unfolding start_copy
  start_copy-filled =
      let wide : ltb t.stride fits.bytes ≡ false = ground (arith, fits.narrow, k.same_stride) in
      let known = ap (λ (x : List ℕ). get_elem? x o.0) k.same_slabs ∙ fits.known in
      rw (known, wide, start_copy) refl

  fill-filled : fill o (some i, t) ≡ some (some i, filled)
  unfolding fill
  fill-filled = rw (install-installed, start_copy-filled, fill) refl

  filled_cases :
      (j : ℕ) (x : Slot)
      → get_elem? filled.slots j ≡ some x
      → ((i ≡ j) × (filled_slot ≡ x)) ⊎ ((i ≢ j) × (get_elem? m.slots j ≡ some x))
  filled_cases j x e = elim (set_cases t.slots i j x filled_slot e) [
    | inl p ↦ inl p
    | inr (p, q) ↦ inr (p, sym (k.elsewhere j p) ∙ q)
  ]

  filled-Inv : Inv filled
  filled-Inv = record {
    sound =
        fill-Sound k.sound i o k.after filled_slot k.now k.empty refl refl
          (k.forgets (key_of o) fresh);
    words = rw k.same_census h.words;
    listed = λ j x e b. elim (filled_cases j x e) [
      | inl (p, q) ↦ (
        ap (λ z. member z (t.used ++ i ∷ [])) (sym p) ∙ member-last i t.used,
        some_ne o x.owner (ap (λ (z : Slot). z.owner) (sym q)),
      )
      | inr (p, q) ↦
          let (on, own) = h.listed j x q b in
          (member-append j t.used (i ∷ []) (rw k.same_used on), own)
    ];
    recent = λ j x e. elim (filled_cases j x e) [
      | inl (p, q) ↦ omega (arith, ap (λ (z : Slot). z.last_used) q)
      | inr (p, q) ↦ omega (arith, h.recent j x q, k.same_clock)
    ];
  }

  -- A slot that the step holds is not the one taken, which was not busy.
  not_held : (j : ℕ) (p : Expert) → Holds m j p → i ≢ j
  not_held j p x same =
      let one = slot_inj k.before x.slot (sym k.was ∙ ap (get_elem? m.slots) same ∙ x.there) in
      let clash : false ≡ true = sym k.idle ∙ ap (λ (z : Slot). z.busy) one ∙ x.busy in cc

  filled-Keeps : Keeps m filled
  filled-Keeps = record {
    holds = λ j p x. record {
      slot = x.slot;
      there =
          get_elem?-set_ne t.slots i j filled_slot (not_held j p x)
          ∙ k.elsewhere j (not_held j p x)
          ∙ x.there;
      owner = x.owner;
      owned = x.owned;
      keyed = x.keyed;
      busy = x.busy;
    };
    as_many = length-set t.slots i filled_slot ∙ k.as_many;
    same_slabs = k.same_slabs;
    same_stride = k.same_stride;
  }

  filled-Held : Held m filled i o
  filled-Held = record {
    inv = filled-Inv;
    keeps = filled-Keeps;
    holds = record {
      slot = filled_slot;
      there = get_elem?-set_self t.slots i filled_slot (get_elem?-lt t.slots i k.now);
      owner = o;
      owned = refl;
      keyed = refl;
      busy = k.taken;
    };
    one_more = omega (arith, length-append t.used (i ∷ []), ap length k.same_used);
    one_tick = omega (arith, k.same_clock);
  }

-- In a pool with the invariant and a spare slot, with a slab that fits and a clock that is not at its
-- end, `acquire` gives a slot for an expert that the index does not know, and holds it for the step.
pub acquire-Held :
    (m : SlotMgr)
    → Inv m
    → (o : Expert) → find_key (key_of o) m.index ≡ none
    → Spare m
    → Fits m o
    → m.clock + 1 < top64
    → (i : ℕ) × (m' : SlotMgr) × (acquire o m ≡ some (some i, m')) × Held m m' i o
unfolding acquire
acquire-Held m h o fresh spare fits room =
    let (i, e, k) = find_room-Taken m h (omega arith) spare in
    let r = find_room m in
    let whole : find_room m ≡ (some i, r.1) = pair_of r i e in
    (
      i,
      filled m r.1 h i o k fresh fits (omega arith),
      rw (fresh, whole, acquire) (fill-filled m r.1 h i o k fresh fits (omega arith)),
      filled-Held m r.1 h i o k fresh fits (omega arith),
    )
  where
    pair_of : (r : Option ℕ × SlotMgr) (i : ℕ) → r.0 ≡ some i → r ≡ (some i, r.1)
    pair_of (x, m) i e = ap (λ (y : Option ℕ). (y, m)) e
