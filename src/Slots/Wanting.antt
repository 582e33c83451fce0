-- ===== src/Slots/Wanting.antt =====
-- An expert with tokens in `Runner::moe_ffn`: while the step uses fewer slots than there are, one is
-- spare, and the expert is held afterwards.
use helios_glm53flash.Prelude.{
  ℕ, zero, suc, ◌+◌, ◌≤◌, ◌<◌, ◌≡◌, ◌≢◌, ◌⊎◌, refl, ap, ◌∙◌, inl, inr, true, false, List, [], ◌∷◌,
  Option, none, some, arith, length, get_elem?, ◌==◌, if◌then◌else◌, Bool-cases, Option-cases,
}
use helios_glm53flash.Slots.State.{
  Expert, Slot, SlotMgr, member, key_of, find_key, find, note_request, reserve,
}
use helios_glm53flash.Slots.Evict.{top64}
use helios_glm53flash.Slots.Acquire.{acquire}
use helios_glm53flash.Slots.Step.{want}
use helios_glm53flash.Slots.Invariant.{
  Inv, Keeps, Keeps-trans, note_request-Inv, note_request-frame,
}
use helios_glm53flash.Slots.Finding.{Held, find-reserve-Held}
use helios_glm53flash.Slots.Filling.{Fits, Spare, acquire-Held}

-- A list without one occurrence of a slot.
abbrev drop_one : ℕ → List ℕ → List ℕ
drop_one i [] = []
drop_one i (u ∷ us) = if u == i then us else u ∷ drop_one i us

length-drop_one :
    (i : ℕ) (us : List ℕ) → member i us ≡ true → length us ≡ suc (length (drop_one i us))
unfolding member
length-drop_one i [] e = absurd (cc)
length-drop_one i (u ∷ us) e = elim (Bool-cases (u == i)) [
  | inl same ↦ rw same refl
  | inr other ↦ rw other (ap suc (length-drop_one i us (rw other at e)))
]

member-drop_one :
    (i j : ℕ) (us : List ℕ) → i ≢ j → member j us ≡ true → member j (drop_one i us) ≡ true
unfolding member
member-drop_one i j [] p e = absurd (cc)
member-drop_one i j (u ∷ us) p e = ground (arith, member-drop_one i j us p)

-- A list on which all of the slots below `n` stand is no shorter than `n`.
pigeonhole : (n : ℕ) (us : List ℕ) → ((j : ℕ) → j < n → member j us ≡ true) → n ≤ length us
pigeonhole zero us all = omega arith
pigeonhole (suc n) us all =
    let here = all n (omega arith) in
    let rest =
      pigeonhole n (drop_one n us)
        (λ j lt. member-drop_one n j us (omega arith) (all j (omega arith))) in
    omega (arith, rest, length-drop_one n us here)

busy_cons :
    (x : Slot) (slots : List Slot)
    → x.busy ≡ true
    → ((j : ℕ) (s : Slot) → get_elem? slots j ≡ some s → s.busy ≡ true)
    → (j : ℕ) (s : Slot) → get_elem? (x ∷ slots) j ≡ some s
    → s.busy ≡ true
busy_cons x slots b all zero s e = ground arith
busy_cons x slots b all (suc j) s e = all j s e

-- A slot that is not busy, if any.
idle_slot :
    (slots : List Slot)
    → ((j : ℕ) (s : Slot) → get_elem? slots j ≡ some s → s.busy ≡ true)
      ⊎ ((j : ℕ) × (s : Slot) × (get_elem? slots j ≡ some s) × (s.busy ≡ false))
idle_slot [] = inl (λ j s e. absurd (cc))
idle_slot (x ∷ slots) = elim (Bool-cases x.busy) [
  | inr idle ↦ inr (zero, x, refl, idle)
  | inl busy ↦ elim (idle_slot slots) [
    | inr (j, s, e, b) ↦ inr (suc j, s, e, b)
    | inl all ↦ inl (busy_cons x slots busy all)
  ]
]

pub get_elem?-some :
    (slots : List Slot) (j : ℕ) → j < length slots → (s : Slot) × (get_elem? slots j ≡ some s)
get_elem?-some [] j lt = absurd (omega arith)
get_elem?-some (x ∷ slots) zero lt = (x, refl)
get_elem?-some (x ∷ slots) (suc j) lt = get_elem?-some slots j (omega arith)

-- A step that uses fewer slots than there are leaves one spare.
used-Spare : (m : SlotMgr) → Inv m → length m.used < length m.slots → Spare m
used-Spare m h lt = elim (idle_slot m.slots) [
  | inr (j, s, e, b) ↦ record { at = j; slot = s; there = e; idle = b }
  | inl all ↦ absurd (
      omega (
        arith,
        pigeonhole (length m.slots) m.used (λ j less.
            let (s, e) = get_elem?-some m.slots j less in (h.listed j s e (all j s e)).0),
      ))
]

-- What a miss of `find` leaves.
abbrev missed : SlotMgr → SlotMgr
missed m = record m { st = record (m.st) { lookups = m.st.lookups + 1 } }

missed-Inv : (m : SlotMgr) → Inv m → Inv (missed m)
missed-Inv m h = record { sound = h.sound; words = h.words; listed = h.listed; recent = h.recent }

missed-Keeps : (m : SlotMgr) → Keeps m (missed m)
missed-Keeps m = record {
  holds = λ j o k. record {
    slot = k.slot;
    there = k.there;
    owner = k.owner;
    owned = k.owned;
    keyed = k.keyed;
    busy = k.busy;
  };
  as_many = refl;
  same_slabs = refl;
  same_stride = refl;
}

-- What holds after a prefix of the work that takes no slot and no tick.
after-Held :
    {a b c : SlotMgr} {j : ℕ} {o : Expert}
    → Keeps a b
    → b.used ≡ a.used
    → b.clock ≡ a.clock
    → Held b c j o
    → Held a c j o
after-Held k us cl r = record {
  inv = r.inv;
  keeps = Keeps-trans k r.keeps;
  holds = r.holds;
  one_more = omega (arith, r.one_more, ap length us);
  one_tick = omega (arith, r.one_tick, cl);
}

want_hit :
    (n : SlotMgr) (o : Expert) (i : ℕ)
    → (find o n).0 ≡ some i
    → (elim (find o n).0 as (λ x. Option SlotMgr) [
      | some i ↦ some (reserve i (find o n).1)
      | none ↦ elim (acquire o (find o n).1) [ none ↦ none | some (slot, m') ↦ some m' ]
    ])
      ≡ some (reserve i (find o n).1)
want_hit n o i e = rw e refl

want_miss :
    (x : Option ℕ) (t n m' : SlotMgr) (o : Expert) (i : ℕ)
    → x ≡ none
    → t ≡ n
    → acquire o n ≡ some (some i, m')
    → (elim x as (λ x. Option SlotMgr) [
      | some i ↦ some (reserve i t)
      | none ↦ elim (acquire o t) [ none ↦ none | some (slot, m') ↦ some m' ]
    ])
      ≡ some m'
want_miss x t n m' o i e same f =
    let there : acquire o t ≡ some (some i, m') = ap (acquire o) same ∙ f in rw (e, there) refl

find_missing :
    (o : Expert) (n : SlotMgr) → find_key (key_of o) n.index ≡ none → find o n ≡ (none, missed n)
unfolding find
find_missing o n e = rw (e, find) refl

-- An expert with tokens is held afterwards.
pub want-Held :
    (m : SlotMgr)
    → Inv m
    → (o : Expert) → Fits m o
    → length m.used < length m.slots
    → m.clock + 1 < top64
    → (j : ℕ) × (m' : SlotMgr) × (want o m ≡ some m') × Held m m' j o
unfolding want
want-Held m h o fits less room =
    let n = note_request o m in
    let (inv, keeps) = note_request-Inv o m h in
    let (sl, ix, he, us, cl, pc, sb, st, wd) = note_request-frame o m in
    elim (Option-cases (find_key (key_of o) n.index)) [
      | inr (i, e) ↦
          let (at, r) = find-reserve-Held n inv o i (omega arith) e in
          (i, reserve i (find o n).1, want_hit n o i at, after-Held keeps us cl r)
      | inl e ↦
          let miss : find o n ≡ (none, missed n) = find_missing o n e in
          let spare =
            used-Spare (missed n) (missed-Inv n inv)
              (omega (arith, less, ap length us, ap length sl)) in
          let fits' : Fits (missed n) o = record {
            bytes = fits.bytes;
            known = ap (λ x. get_elem? x o.0) sb ∙ fits.known;
            narrow = omega (arith, fits.narrow, st);
          } in
          let (i, m', e', r) =
            acquire-Held (missed n) (missed-Inv n inv) o e spare fits' (omega (arith, room, cl)) in
          (
            i,
            m',
            want_miss (find o n).0 (find o n).1 (missed n) m' o i
                (ap (λ (x : Option ℕ × SlotMgr). x.0) miss)
                (ap (λ (x : Option ℕ × SlotMgr). x.1) miss) e',
            after-Held (Keeps-trans keeps (missed-Keeps n)) us cl r,
          )
    ]
