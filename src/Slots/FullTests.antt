-- ===== src/Slots/FullTests.antt =====
-- The slot manager at a pool of one slot, whose copy is in flight.
use helios_glm53flash.Prelude.{
  ℕ, zero, suc, ◌≡◌, ◌==◌, refl, sym, ap, inl, inr, Bool-cases, true, false, [], ◌∷◌, none, some,
  arith, get_elem?,
}
use helios_glm53flash.Slots.State.{Expert, Slot, SlotMgr, find_key, key_of, member, sync_copies}
use helios_glm53flash.Slots.Acquire.{acquire}
use helios_glm53flash.Slots.Table.{owners}
use helios_glm53flash.Slots.Invariant.{Inv, slot_inj}
use helios_glm53flash.Slots.Exhausted.{AllBusy, acquire_exhausted}

abbrev busy_slot : Slot
busy_slot = record { owner = some (0, 1); heat = 1; last_used = 1; pinned = false; busy = true }

abbrev full_pool : SlotMgr
full_pool = record {
  slab_bytes = 100 ∷ [];
  stride = 100;
  n_layer = 1;
  max_pinned = 0;
  slots = busy_slot ∷ [];
  held = some (0, 1) ∷ [];
  index = (1, 0) ∷ [];
  used = 0 ∷ [];
  pending = 0 ∷ [];
  clock = 1;
  pinned_count = 0;
  census = [];
  hot = [];
  st = record {
    hits = 0;
    misses = 1;
    evictions = 0;
    h2d_bytes = 100;
    pinned_hits = 0;
    lookups = 1;
    resident_hits = 0;
  };
}

only_slot : (i : ℕ) (s : Slot) → get_elem? full_pool.slots i ≡ some s → (0 ≡ i) × (busy_slot ≡ s)
only_slot zero s e = (refl, slot_inj busy_slot s e)
only_slot (suc i) s e = absurd (cc)

full_keyed :
    (k i : ℕ)
    → find_key k full_pool.index ≡ some i
    → (o : Expert) × (get_elem? (owners full_pool.slots) i ≡ some (some o)) × (key_of o ≡ k)
unfolding find_key
full_keyed k i e = elim (Bool-cases (1 == k)) [
  | inl one ↦
      let there : 0 ≡ i = ground arith in
      let key : 1 ≡ k = ground arith in rw (← there, ← key) ((0, 1), refl, refl)
  | inr other ↦ absurd (ground arith)
]

full_mapped :
    (i : ℕ) (o : Expert)
    → get_elem? (owners full_pool.slots) i ≡ some (some o)
    → (find_key (key_of o) full_pool.index ≡ some i) × (get_elem? full_pool.held i ≡ some (some o))
unfolding find_key
full_mapped zero o e = let own : (0, 1) ≡ o = ground arith in rw (← own) (refl, refl)
full_mapped (suc i) o e = absurd (cc)

full-Inv : Inv full_pool
unfolding member
full-Inv = record {
  sound = record {
    agree = record {
      keyed = full_keyed;
      mapped = λ i o e. (full_mapped i o e).0;
      filled = λ i o e. (full_mapped i o e).1;
    };
    counted = refl;
    sized = refl;
    loose = λ i s e own. ap (λ (x : Slot). x.pinned) (sym (only_slot i s e).1);
  };
  words = tt;
  listed = λ i s e b. let (at, same) = only_slot i s e in rw (← at, ← same) (refl, λ p. cc);
  recent = λ i s e. let (at, same) = only_slot i s e in rw (← same) (omega arith);
}

acquire_exhausted_example :
    (acquire (0, 2) full_pool ≡ some (none, sync_copies full_pool))
    × Inv (sync_copies full_pool)
    × AllBusy (sync_copies full_pool)
unfolding find_key
acquire_exhausted_example =
    acquire_exhausted full_pool full-Inv (0, 2) refl
      (λ i s e. ap (λ (x : Slot). x.busy) (sym (only_slot i s e).1))
