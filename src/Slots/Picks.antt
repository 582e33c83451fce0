-- ===== src/Slots/Picks.antt =====
-- What the scans of `evict_one` pick, and what it means that they pick nothing.
use helios_glm53flash.Prelude.{
  lt→ltb, Option-cases, ℕ, zero, suc, ◌+◌, ◌^◌, ◌≤◌, ◌<◌, ◌≡◌, ◌≢◌, ◌⊎◌, refl, sym, ap, ◌∙◌, inl,
  inr, Bool, true, false, ◌&&◌, ◌||◌, List, [], ◌∷◌, Option, none, some, arith, get_elem?, ltb,
  ◌==◌, Bool-cases, All,
}
use helios_glm53flash.Slots.State.{Slot, get_or, cell_of}
use helios_glm53flash.Slots.Evict.{Best, is_free, first_free, top64, score, colder, coldest, oldest}

-- A picked slot: its place in the list scanned, which starts at index `i`.
pub record Pick (i k : ℕ) (slots : List Slot) : Type 0 where
  pub offset : ℕ
  pub slot : Slot
  pub at : k ≡ i + offset
  pub there : get_elem? slots offset ≡ some slot

next_at : (k i offset : ℕ) → k ≡ suc i + offset → k ≡ i + suc offset
next_at k i offset e = omega arith

abbrev pick_next :
    {i k : ℕ} {s : Slot} {slots : List Slot} → Pick (suc i) k slots → Pick i k (s ∷ slots)
pick_next p = record {
  offset = suc p.offset;
  slot = p.slot;
  at = next_at _ _ p.offset p.at;
  there = p.there;
}

pub first_free-picks :
    (i k : ℕ) (slots : List Slot)
    → first_free i slots ≡ some k
    → (p : Pick i k slots) × (p.slot.owner ≡ none) × (p.slot.busy ≡ false)
unfolding first_free
first_free-picks i k [] e = absurd (cc)
first_free-picks i k (s ∷ slots) e = elim (Bool-cases (is_free s)) [
  | inl free ↦
      (record { offset = 0; slot = s; at = ground arith; there = refl }, ground arith, ground arith)
  | inr held ↦
      let (p, empty, idle) = first_free-picks (suc i) k slots (ground arith) in
      (pick_next p, empty, idle)
]

-- The census counters are 32-bit words.
abbrev pub Words : List ℕ → Type 0
Words census = All (λ n. n < 2 ^ 32) census

get-Words : (census : List ℕ) (i : ℕ) → Words census → get_or (get_elem? census i) 0 < 2 ^ 32
get-Words [] i w = omega arith
get-Words (n ∷ census) zero w = w.0
get-Words (n ∷ census) (suc i) w = get-Words census i w.1

score-lt : (census : List ℕ) (s : Slot) → Words census → score census s < top64
unfolding score
score-lt census s w = elim (Option-cases s.owner) [
  | inl e ↦ rw e (omega arith)
  | inr (o, e) ↦ rw e (omega (arith, get-Words census (cell_of o) w))
]

pub coldest-picks :
    (census : List ℕ) (i k : ℕ) (slots : List Slot) (b : Best)
    → (coldest census i slots b).slot ≡ some k
    → (b.slot ≡ some k) ⊎ ((p : Pick i k slots) × (p.slot.busy ≡ false) × (p.slot.pinned ≡ false))
unfolding coldest colder
coldest-picks census i k [] b e = inl e
coldest-picks census i k (s ∷ slots) b e =
    elim (coldest-picks census (suc i) k slots (colder census i s b) e) [
      | inl here ↦ elim (Bool-cases (s.busy || s.pinned)) [
        | inl held ↦ inl (ground arith)
        | inr idle ↦
            elim (Bool-cases (
              ltb (score census s) b.by_score
              || ((score census s == b.by_score) && ltb s.heat b.by_heat))) [
                | inl better ↦ inr (
                  record { offset = 0; slot = s; at = ground arith; there = refl },
                  ground arith,
                  ground arith,
                )
                | inr worse ↦ inl (ground arith)
              ]
      ]
      | inr (p, idle, loose) ↦ inr (pick_next p, idle, loose)
    ]

colder-some :
    (census : List ℕ) (i : ℕ) (s : Slot) (b : Best)
    → b.slot ≢ none
    → (colder census i s b).slot ≢ none
unfolding colder
colder-some census i s b h = ground arith

coldest-some :
    (census : List ℕ) (i : ℕ) (slots : List Slot) (b : Best)
    → b.slot ≢ none
    → (coldest census i slots b).slot ≢ none
unfolding coldest
coldest-some census i [] b h = h
coldest-some census i (s ∷ slots) b h =
    coldest-some census (suc i) slots (colder census i s b) (colder-some census i s b h)

-- The first slot that is neither busy nor pinned beats an open best score.
colder-open :
    (census : List ℕ) (i : ℕ) (s : Slot) (b : Best)
    → Words census
    → b.by_score ≡ top64
    → (s.busy || s.pinned) ≡ false
    → (colder census i s b).slot ≢ none
unfolding colder
colder-open census i s b w t idle =
    let low = score-lt census s w in
    let beat : ltb (score census s) b.by_score ≡ true = rw t (lt→ltb (score census s) top64 low) in
    rw (idle, beat) (λ e. cc)

held_cons :
    (s : Slot) (slots : List Slot)
    → (s.busy || s.pinned) ≡ true
    → ((j : ℕ) (x : Slot) → get_elem? slots j ≡ some x → (x.busy || x.pinned) ≡ true)
    → (j : ℕ) (x : Slot) → get_elem? (s ∷ slots) j ≡ some x
    → (x.busy || x.pinned) ≡ true
held_cons s slots h rest zero x e = ground arith
held_cons s slots h rest (suc j) x e = rest j x e

-- With an open best score, a scan that picks nothing has passed over every slot.
pub coldest-none :
    (census : List ℕ) (i : ℕ) (slots : List Slot) (b : Best)
    → Words census
    → b.by_score ≡ top64
    → (coldest census i slots b).slot ≡ none
    → (b.slot ≡ none)
      × ((coldest census i slots b).by_heat ≡ b.by_heat)
      × ((j : ℕ) (s : Slot) → get_elem? slots j ≡ some s → (s.busy || s.pinned) ≡ true)
unfolding coldest colder
coldest-none census i [] b w t e = (e, refl, λ j s x. absurd (cc))
coldest-none census i (s ∷ slots) b w t e = elim (Bool-cases (s.busy || s.pinned)) [
  | inl held ↦
      let skip : colder census i s b ≡ b = rw held in
      let (empty, heat, rest) =
        coldest-none census (suc i) slots b w t
          (ap (λ (x : Best). (coldest census (suc i) slots x).slot) (sym skip) ∙ e) in
      (
        empty,
        ap (λ (x : Best). (coldest census (suc i) slots x).by_heat) skip ∙ heat,
        held_cons s slots held rest,
      )
  | inr idle ↦ absurd (
      coldest-some census (suc i) slots (colder census i s b) (colder-open census i s b w t idle) e)
]

pub oldest-picks :
    (allowed : ℕ → Slot → Bool) (i k : ℕ) (slots : List Slot) (best : Option ℕ) (best_t : ℕ)
    → oldest allowed i slots best best_t ≡ some k
    → (best ≡ some k) ⊎ ((p : Pick i k slots) × (allowed k p.slot ≡ true))
unfolding oldest
oldest-picks allowed i k [] best best_t e = inl e
oldest-picks allowed i k (s ∷ slots) best best_t e =
    elim (Bool-cases (allowed i s && ltb s.last_used best_t)) [
      | inl taken ↦
          elim (oldest-picks allowed (suc i) k slots (some i) s.last_used (rw taken at e)) [
            | inl here ↦
                let same : i ≡ k = ground arith in
                inr (
                  record { offset = 0; slot = s; at = omega arith; there = refl },
                  rw (← same) (ground arith),
                )
            | inr (p, ok) ↦ inr (pick_next p, ok)
          ]
      | inr passed ↦ elim (oldest-picks allowed (suc i) k slots best best_t (rw passed at e)) [
        | inl here ↦ inl here
        | inr (p, ok) ↦ inr (pick_next p, ok)
      ]
    ]

oldest-some :
    (allowed : ℕ → Slot → Bool) (i k : ℕ) (slots : List Slot) (best_t : ℕ)
    → oldest allowed i slots (some k) best_t ≢ none
unfolding oldest
oldest-some allowed i k [] best_t e = cc
oldest-some allowed i k (s ∷ slots) best_t e =
    elim (Bool-cases (allowed i s && ltb s.last_used best_t)) [
      | inl taken ↦ oldest-some allowed (suc i) i slots s.last_used (rw taken at e)
      | inr passed ↦ oldest-some allowed (suc i) k slots best_t (rw passed at e)
    ]

not_taken :
    (allowed : ℕ → Slot → Bool) (i : ℕ) (x : Slot) (slots : List Slot) (best_t : ℕ)
    → (allowed i x && ltb x.last_used best_t) ≡ false
    → ((j : ℕ) (s : Slot)
        → get_elem? slots j ≡ some s
        → allowed (suc i + j) s ≡ true
        → best_t ≤ s.last_used)
    → (j : ℕ) (s : Slot) → get_elem? (x ∷ slots) j ≡ some s
    → allowed (i + j) s ≡ true
    → best_t ≤ s.last_used
not_taken allowed i x slots best_t passed rest zero s there ok =
    let here : i + 0 ≡ i = omega arith in
    let ok' : allowed i s ≡ true = rw here at ok in ground arith
not_taken allowed i x slots best_t passed rest (suc j) s there ok =
    let on : i + suc j ≡ suc i + j = omega arith in rest j s there (rw on at ok)

pub oldest-none :
    (allowed : ℕ → Slot → Bool) (i : ℕ) (slots : List Slot) (best_t : ℕ)
    → oldest allowed i slots none best_t ≡ none
    → (j : ℕ) (s : Slot) → get_elem? slots j ≡ some s
    → allowed (i + j) s ≡ true
    → best_t ≤ s.last_used
unfolding oldest
oldest-none allowed i [] best_t e j s there ok = absurd (cc)
oldest-none allowed i (x ∷ slots) best_t e j s there ok =
    elim (Bool-cases (allowed i x && ltb x.last_used best_t)) [
      | inl taken ↦ absurd (oldest-some allowed (suc i) i slots x.last_used (rw taken at e))
      | inr passed ↦
          not_taken allowed i x slots best_t passed
            (oldest-none allowed (suc i) slots best_t (rw passed at e)) j s there ok
    ]
