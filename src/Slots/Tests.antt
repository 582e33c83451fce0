-- ===== src/Slots/Tests.antt =====
-- The slot manager at a pool of three slots: one holds a pinned expert, one a loose one, one is free.
use helios_glm53flash.Prelude.{
  inr, inl, ℕ, zero, suc, ◌≤◌, ◌≡◌, ◌≢◌, ◌⊎◌, refl, sym, ap, ◌∙◌, true, false, List, [], ◌∷◌, none,
  some, arith, get_elem?, Bool-cases, ◌==◌,
}
use helios_glm53flash.Slots.State.{Expert, Slot, SlotMgr, find_key, key_of, find, reserve}
use helios_glm53flash.Slots.Evict.{evict_one}
use helios_glm53flash.Slots.Table.{owners}
use helios_glm53flash.Slots.Taking.{Taken}
use helios_glm53flash.Slots.Evicting.{evict_one_lem}
use helios_glm53flash.Slots.Acquire.{acquire}
use helios_glm53flash.Slots.Finding.{Held, find-reserve-Held}
use helios_glm53flash.Slots.Filling.{acquire-Held}
use helios_glm53flash.Slots.Invariant.{Inv, slot_inj}
use helios_glm53flash.Slots.Step.{load_experts, release_step}
use helios_glm53flash.Slots.Loading.{Idle, Serves, load_experts-Serves}
use helios_glm53flash.Slots.Ending.{release_step-Idle}

abbrev pinned_slot : Slot
pinned_slot = record { owner = some (0, 1); heat = 4; last_used = 2; pinned = true; busy = false }

abbrev loose_slot : Slot
loose_slot = record { owner = some (0, 0); heat = 1; last_used = 1; pinned = false; busy = false }

abbrev free_slot : Slot
free_slot = record { owner = none; heat = 0; last_used = 0; pinned = false; busy = false }

abbrev pool : SlotMgr
pool = record {
  slab_bytes = 100 ∷ 90 ∷ [];
  stride = 100;
  n_layer = 1;
  max_pinned = 1;
  slots = pinned_slot ∷ loose_slot ∷ free_slot ∷ [];
  held = some (0, 1) ∷ some (0, 0) ∷ none ∷ [];
  index = (1, 0) ∷ (0, 1) ∷ [];
  used = [];
  pending = [];
  clock = 2;
  pinned_count = 1;
  census = 5 ∷ 3 ∷ 7 ∷ [];
  hot = false ∷ true ∷ false ∷ [];
  st = record {
    hits = 0;
    misses = 2;
    evictions = 0;
    h2d_bytes = 200;
    pinned_hits = 1;
    lookups = 3;
    resident_hits = 1;
  };
}

abbrev Keyed : ℕ → ℕ → Type 0
Keyed k i = (o : Expert) × (get_elem? (owners pool.slots) i ≡ some (some o)) × (key_of o ≡ k)

pool_Keyed : (k i : ℕ) → find_key k pool.index ≡ some i → Keyed k i
unfolding find_key
pool_Keyed k i e = elim (Bool-cases (1 == k)) [
  | inl one ↦
      let there : 0 ≡ i = ground arith in
      let key : 1 ≡ k = ground arith in rw (← there, ← key) ((0, 1), refl, refl)
  | inr other ↦ elim (Bool-cases (0 == k)) [
    | inl nil ↦
        let there : 1 ≡ i = ground arith in
        let key : 0 ≡ k = ground arith in rw (← there, ← key) ((0, 0), refl, refl)
    | inr no_key ↦ absurd (ground arith)
  ]
]

same_expert : (p o : Expert) → some (some p) ≡ some (some o) → p ≡ o
same_expert p o e = ground arith

owned : (p : Expert) → some p ≢ none
owned p e = cc

pool-mapped :
    (i : ℕ) (o : Expert)
    → get_elem? (owners pool.slots) i ≡ some (some o)
    → (find_key (key_of o) pool.index ≡ some i) × (get_elem? pool.held i ≡ some (some o))
unfolding find_key
pool-mapped zero o e = let own : (0, 1) ≡ o = same_expert (0, 1) o e in rw (← own) (refl, refl)
pool-mapped (suc zero) o e =
    let own : (0, 0) ≡ o = same_expert (0, 0) o e in rw (← own) (refl, refl)
pool-mapped (suc (suc zero)) o e = absurd (ground arith)
pool-mapped (suc (suc (suc i))) o e = absurd (cc)

pool-loose :
    (i : ℕ) (s : Slot) → get_elem? pool.slots i ≡ some s → s.owner ≡ none → s.pinned ≡ false
pool-loose zero s e o =
    absurd (owned (0, 1) (ap (λ (x : Slot). x.owner) (slot_inj pinned_slot s e) ∙ o))
pool-loose (suc zero) s e o = ap (λ (x : Slot). x.pinned) (slot_inj s loose_slot (sym e))
pool-loose (suc (suc zero)) s e o = ap (λ (x : Slot). x.pinned) (slot_inj s free_slot (sym e))
pool-loose (suc (suc (suc i))) s e o = absurd (cc)

pool-Idle : Idle pool
pool-Idle zero s e = ap (λ (x : Slot). x.busy) (slot_inj s pinned_slot (sym e))
pool-Idle (suc zero) s e = ap (λ (x : Slot). x.busy) (slot_inj s loose_slot (sym e))
pool-Idle (suc (suc zero)) s e = ap (λ (x : Slot). x.busy) (slot_inj s free_slot (sym e))
pool-Idle (suc (suc (suc i))) s e = absurd (cc)

used_by : (s x : Slot) (n : ℕ) → x.last_used ≤ n → some x ≡ some s → s.last_used ≤ n
used_by s x n h e = omega (arith, h, ap (λ (y : Slot). y.last_used) (slot_inj x s e))

pool-recent : (i : ℕ) (s : Slot) → get_elem? pool.slots i ≡ some s → s.last_used ≤ pool.clock
pool-recent zero s e = used_by s pinned_slot 2 (omega arith) e
pool-recent (suc zero) s e = used_by s loose_slot 2 (omega arith) e
pool-recent (suc (suc zero)) s e = used_by s free_slot 2 (omega arith) e
pool-recent (suc (suc (suc i))) s e = absurd (cc)

pool-Inv : Inv pool
pool-Inv = record {
  sound = record {
    agree = record {
      keyed = pool_Keyed;
      mapped = λ i o e. (pool-mapped i o e).0;
      filled = λ i o e. (pool-mapped i o e).1;
    };
    counted = refl;
    sized = refl;
    loose = pool-loose;
  };
  words = (omega arith, (omega arith, (omega arith, tt)));
  listed = λ j s e b. let clash : true ≡ false = sym b ∙ pool-Idle j s e in absurd (cc);
  recent = pool-recent;
}

abbrev counts : List ℕ
counts = 1 ∷ 0 ∷ 6 ∷ []

load_experts-Serves_example :
    (m' : SlotMgr) × (load_experts 0 counts pool ≡ some m') × Inv m' × Serves m' 0 counts
load_experts-Serves_example =
    load_experts-Serves 0 counts pool pool-Inv pool-Idle
      (record { bytes = 100; known = refl; narrow = omega arith }) (omega arith) (omega arith)

release_step-Idle_example : Inv (release_step pool) × Idle (release_step pool)
release_step-Idle_example = release_step-Idle pool pool-Inv

evict_one_example :
    ((i : ℕ) × ((evict_one pool).0 ≡ some i) × Taken pool (evict_one pool).1 i)
    ⊎ (((evict_one pool).0 ≡ none)
        × ((evict_one pool).1 ≡ pool)
        × ((j : ℕ) (s : Slot) → get_elem? pool.slots j ≡ some s → s.busy ≡ true))
evict_one_example = evict_one_lem pool pool-Inv (omega arith)

acquire-Held_example :
    (i : ℕ) × (m' : SlotMgr) × (acquire (0, 2) pool ≡ some (some i, m')) × Held pool m' i (0, 2)
unfolding find_key
acquire-Held_example =
    acquire-Held pool pool-Inv (0, 2) (refl)
      (record { at = 0; slot = pinned_slot; there = refl; idle = refl })
      (record { bytes = 100; known = refl; narrow = omega arith }) (omega arith)

find-reserve-Held_example :
    ((find (0, 0) pool).0 ≡ some 1) × Held pool (reserve 1 (find (0, 0) pool).1) 1 (0, 0)
unfolding find_key
find-reserve-Held_example = find-reserve-Held pool pool-Inv (0, 0) 1 (omega arith) refl
