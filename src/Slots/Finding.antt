-- ===== src/Slots/Finding.antt =====
-- `find` and `reserve` keep the invariant, and a slot found and reserved is held for the step.
use helios_glm53flash.Prelude.{
  ℕ, zero, suc, ◌+◌, ◌-◌, ◌^◌, ◌≤◌, ◌<◌, ◌≡◌, ◌≢◌, refl, sym, ap, ◌∙◌, inl, inr, Bool, true, false,
  not, ◌&&◌, List, [], ◌∷◌, ◌++◌, Option, none, some, arith, length, get_elem?, set, ltb,
  Bool-cases, Option-cases, length-append, get_elem?-set_self, get_elem?-lt,
}
use helios_glm53flash.Slots.State.{
  Expert, Slot, SlotMgr, key_of, find_key, wrap64, touched, repin, hit, find, reserve, is_hot,
}
use helios_glm53flash.Slots.Table.{bit, owners, pins-set}
use helios_glm53flash.Slots.Invariant.{Inv, Holds, Keeps, Keeps-trans, member-append, member-last}
use helios_glm53flash.Slots.Update.{Update, Update-Inv, Update-Keeps}

-- What a hit makes of slot `i`: the new slot, and the frame.
pub record Hit (m m' : SlotMgr) (i : ℕ) (s : Slot) : Type 0 where
  pub after : Slot
  pub update : Update m m' i s after
  pub same_busy : after.busy ≡ s.busy
  pub same_used : m'.used ≡ m.used
  pub ticked : m'.clock ≡ m.clock + 1

module _ (m : SlotMgr) (h : Inv m) (i : ℕ) (s : Slot) (there : get_elem? m.slots i ≡ some s)
    (own : s.owner ≢ none) (room : m.clock + 1 < 2 ^ 64) where
  -- The hit with the pin and the count of pins that result.
  repinned-Hit :
      (m' : SlotMgr) (pin : Bool)
      → (let s' : Slot = record (touched (m.clock + 1) s) { pinned = pin } in
          (m'.slots ≡ set m.slots i s')
          × (m'.pinned_count + bit s.pinned ≡ m.pinned_count + bit pin)
          × (m'.used ≡ m.used)
          × (m'.clock ≡ m.clock + 1)
          × (m'.index ≡ m.index)
          × (m'.held ≡ m.held)
          × (m'.census ≡ m.census)
          × (m'.slab_bytes ≡ m.slab_bytes)
          × (m'.stride ≡ m.stride))
      → Hit m m' i s
  repinned-Hit m' pin (sl, count, us, cl, ix, he, ce, sb, st) = record {
    after = record (touched (m.clock + 1) s) { pinned = pin };
    update = record {
      there = there;
      replaced = sl;
      same_owner = refl;
      loose = λ e. absurd (own e);
      adjusted = count;
      listed = λ b. let (on, _) = h.listed i s there b in (rw us on, own);
      more_used = λ j e. rw us e;
      later = omega (arith, cl);
      dated = omega (arith, cl);
      same_index = ix;
      same_held = he;
      same_census = ce;
      same_slabs = sb;
      same_stride = st;
    };
    same_busy = refl;
    same_used = us;
    ticked = cl;
  }

  abbrev unpinned_hit : SlotMgr
  unpinned_hit = record m {
    clock = m.clock + 1;
    slots = set m.slots i (record (touched (m.clock + 1) s) { pinned = false });
    pinned_count = m.pinned_count - 1;
    st = record (m.st) { lookups = m.st.lookups + 1; resident_hits = m.st.resident_hits + 1 };
  }

  abbrev plain_hit : SlotMgr
  plain_hit = record m {
    clock = m.clock + 1;
    slots = set m.slots i (touched (m.clock + 1) s);
    st = record (m.st) { lookups = m.st.lookups + 1; resident_hits = m.st.resident_hits + 1 };
  }

  one_less : s.pinned ≡ true → m.pinned_count - 1 + bit s.pinned ≡ m.pinned_count + 0
  one_less was =
      omega (
        arith,
        h.sound.counted,
        ap bit was,
        pins-set m.slots i s (record s { pinned = false }) there,
      )

  pub hit-Hit : (o : Expert) → Hit m (hit i o m) i s
  unfolding hit repin
  hit-Hit o =
      let tick : wrap64 (m.clock + 1) ≡ m.clock + 1 = ground arith in
      elim (Bool-cases (is_hot o m)) [
        | inl hot ↦ elim (Bool-cases (not s.pinned && ltb m.pinned_count m.max_pinned)) [
          | inl fits ↦
              let was : s.pinned ≡ false = ground arith in
              rw (there, tick, hot, hit, repin)
                (rw fits (
                  repinned-Hit _ true
                    (refl, omega (arith, ap bit was), refl, refl, refl, refl, refl, refl, refl)))
          | inr full ↦
              rw (there, tick, hot, hit, repin)
                (rw full
                  (repinned-Hit _ s.pinned (refl, refl, refl, refl, refl, refl, refl, refl, refl)))
        ]
        | inr cold ↦ elim (Bool-cases s.pinned) [
          | inl was ↦
              let dropped : hit i o m ≡ unpinned_hit =
                rw (there, tick, cold, was, hit, repin) refl in
              rw dropped (
                repinned-Hit unpinned_hit false
                  (refl, one_less was, refl, refl, refl, refl, refl, refl, refl))
          | inr was ↦
              let same : hit i o m ≡ plain_hit = rw (there, tick, cold, was, hit, repin) refl in
              rw same (
                repinned-Hit plain_hit s.pinned
                  (refl, refl, refl, refl, refl, refl, refl, refl, refl))
        ]
      ]

-- The slot that the index names has an expert with the key asked for.
pub keyed_slot :
    {m : SlotMgr}
    → Inv m
    → (k i : ℕ) → find_key k m.index ≡ some i
    → (s : Slot) × (p : Expert) × (get_elem? m.slots i ≡ some s)
      × (s.owner ≡ some p)
      × (key_of p ≡ k)
keyed_slot h k i e =
    let (p, at, key) = h.sound.agree.keyed k i e in
    let (s, there, own) = owners-back _ i (some p) at in (s, p, there, own, key)
  where
    owners-back :
        (slots : List Slot) (i : ℕ) (o : Option Expert)
        → get_elem? (owners slots) i ≡ some o
        → (s : Slot) × (get_elem? slots i ≡ some s) × (s.owner ≡ o)
    owners-back [] i o e = absurd (cc)
    owners-back (x ∷ slots) zero o e = (x, refl, ground arith)
    owners-back (x ∷ slots) (suc i) o e = owners-back slots i o e

-- What holding slot `j` for expert `o` costs the step: at most one slot and one tick.
pub record Held (m m' : SlotMgr) (j : ℕ) (o : Expert) : Type 0 where
  pub inv : Inv m'
  pub keeps : Keeps m m'
  pub holds : Holds m' j o
  pub one_more : length m'.used ≤ length m.used + 1
  pub one_tick : m'.clock ≤ m.clock + 1

pub some_ne : (p : Expert) (x : Option Expert) → x ≡ some p → x ≢ none
some_ne p x e f = let g : some p ≡ none = sym e ∙ f in cc

pub Keeps-refl : (m : SlotMgr) → Keeps m m
Keeps-refl m = record { holds = λ j o h. h; as_many = refl; same_slabs = refl; same_stride = refl }

module _ (m : SlotMgr) (h : Inv m) (i : ℕ) (o p : Expert) (s : Slot)
    (there : get_elem? m.slots i ≡ some s) (own : s.owner ≡ some p)
    (key : key_of p ≡ key_of o) where
  abbrev reserved : SlotMgr
  reserved = record m { slots = set m.slots i (record s { busy = true }); used = m.used ++ i ∷ [] }

  reserved-Update : Update m reserved i s (record s { busy = true })
  reserved-Update = record {
    there = there;
    replaced = refl;
    same_owner = refl;
    loose = λ e. absurd (some_ne p s.owner own e);
    adjusted = refl;
    listed = λ b. (member-last i m.used, some_ne p s.owner own);
    more_used = λ j e. member-append j m.used (i ∷ []) e;
    later = ground arith;
    dated = h.recent i s there;
    same_index = refl;
    same_held = refl;
    same_census = refl;
    same_slabs = refl;
    same_stride = refl;
  }

  -- Reserving a slot holds its expert for the step.
  pub reserve-Held : Held m (reserve i m) i o
  unfolding reserve
  reserve-Held = elim (Bool-cases s.busy) [
    | inl busy ↦
        let same : reserve i m ≡ m = rw (there, busy, reserve) refl in
        rw same (record {
          inv = h;
          keeps = Keeps-refl m;
          holds = record {
            slot = s;
            there = there;
            owner = p;
            owned = own;
            keyed = key;
            busy = busy;
          };
          one_more = omega arith;
          one_tick = omega arith;
        })
    | inr idle ↦
        let same : reserve i m ≡ reserved = rw (there, idle, reserve) refl in
        rw same (record {
          inv = Update-Inv h reserved-Update;
          keeps = Update-Keeps h reserved-Update (λ b. refl);
          holds = record {
            slot = record s { busy = true };
            there = get_elem?-set_self m.slots i _ (get_elem?-lt m.slots i there);
            owner = p;
            owned = own;
            keyed = key;
            busy = refl;
          };
          one_more = omega (arith, length-append m.used (i ∷ []));
          one_tick = omega arith;
        })
  ]

reserve-clock : (i : ℕ) (m : SlotMgr) → (reserve i m).clock ≡ m.clock
unfolding reserve
reserve-clock i m = elim (Option-cases (get_elem? m.slots i)) [
  | inl e ↦ rw (e, reserve) refl
  | inr (s, e) ↦ elim (Bool-cases s.busy) [
    | inl b ↦ rw (e, reserve) (rw b refl)
    | inr b ↦ rw (e, reserve) (rw b refl)
  ]
]

-- In a pool with the invariant, whose clock is not about to wrap, an expert that the index knows is
-- found, and reserving its slot holds it for the step.
pub find-reserve-Held :
    (m : SlotMgr)
    → Inv m
    → (o : Expert) (i : ℕ) → m.clock + 1 < 2 ^ 64
    → find_key (key_of o) m.index ≡ some i
    → ((find o m).0 ≡ some i) × Held m (reserve i (find o m).1) i o
unfolding find
find-reserve-Held m h o i room e =
    let (s, p, there, own, key) = keyed_slot h (key_of o) i e in
    let hits = hit-Hit m h i s there (some_ne p s.owner own) room o in
    let u = hits.update in
    let at =
      ap (λ x. get_elem? x i) u.replaced
      ∙ get_elem?-set_self m.slots i hits.after (get_elem?-lt m.slots i there) in
    let r =
      reserve-Held (hit i o m) (Update-Inv h u) i o p hits.after at (u.same_owner ∙ own) key in
    rw (e, find)
      (
        refl,
        record {
          inv = r.inv;
          keeps = Keeps-trans (Update-Keeps h u (λ b. hits.same_busy ∙ b)) r.keeps;
          holds = r.holds;
          one_more = omega (arith, r.one_more, ap length hits.same_used);
          one_tick = omega (arith, reserve-clock i (hit i o m), hits.ticked);
        },
      )
