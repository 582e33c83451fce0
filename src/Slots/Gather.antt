-- ===== src/Slots/Gather.antt =====
-- The loop of `Runner::moe_ffn` over the experts of a layer: with a slot for each it ends, and every
-- expert with tokens is then held.
use helios_glm53flash.Prelude.{
  ℕ, zero, suc, ◌+◌, ◌≤◌, ◌<◌, ◌≡◌, ◌≢◌, refl, ap, ◌∙◌, inl, inr, true, false, List, [], ◌∷◌, some,
  arith, length, get_elem?, ◌==◌, if◌then◌else◌, Bool-cases,
}
use helios_glm53flash.Slots.State.{SlotMgr}
use helios_glm53flash.Slots.Evict.{top64}
use helios_glm53flash.Slots.Step.{want, gather}
use helios_glm53flash.Slots.Invariant.{Inv, Holds, Keeps, Keeps-trans}
use helios_glm53flash.Slots.Finding.{Keeps-refl}
use helios_glm53flash.Slots.Filling.{Fits}
use helios_glm53flash.Slots.Wanting.{want-Held}

-- How many experts have tokens.
abbrev pub wanted : List ℕ → ℕ
wanted [] = 0
wanted (count ∷ counts) = if count == 0 then wanted counts else suc (wanted counts)

-- Each expert of `counts`, from `e` on, that has tokens is held by a slot.
abbrev pub AllHeld : SlotMgr → ℕ → ℕ → List ℕ → Type 0
AllHeld m layer e counts =
    (x c : ℕ) → get_elem? counts x ≡ some c → c ≢ 0 → (j : ℕ) × Holds m j (layer, e + x)

-- The slab of the layer is known, and no wider than a slot.
pub record LayerFits (m : SlotMgr) (layer : ℕ) : Type 0 where
  pub bytes : ℕ
  pub known : get_elem? m.slab_bytes layer ≡ some bytes
  pub narrow : bytes ≤ m.stride

LayerFits-Fits : (m : SlotMgr) (layer e : ℕ) → LayerFits m layer → Fits m (layer, e)
LayerFits-Fits m layer e f = record { bytes = f.bytes; known = f.known; narrow = f.narrow }

fits_after : (m m' : SlotMgr) (layer : ℕ) → Keeps m m' → LayerFits m layer → LayerFits m' layer
fits_after m m' layer k f = record {
  bytes = f.bytes;
  known = ap (λ x. get_elem? x layer) k.same_slabs ∙ f.known;
  narrow = omega (arith, f.narrow, k.same_stride);
}

shift : (e x : ℕ) → suc e + x ≡ e + suc x
shift e x = omega arith

held_skip :
    (m : SlotMgr) (layer e count : ℕ) (counts : List ℕ)
    → count ≡ 0
    → AllHeld m layer (suc e) counts
    → AllHeld m layer e (count ∷ counts)
held_skip m layer e count counts nil all zero c at some_c = absurd (some_c (ground arith))
held_skip m layer e count counts nil all (suc x) c at some_c =
    let (j, h) = all x c at some_c in (j, rw (shift e x) at h)

held_cons :
    (m : SlotMgr) (layer e count : ℕ) (counts : List ℕ) (j : ℕ)
    → Holds m j (layer, e)
    → AllHeld m layer (suc e) counts
    → AllHeld m layer e (count ∷ counts)
held_cons m layer e count counts j first all zero c at some_c =
    let here : e + 0 ≡ e = omega arith in (j, rw here first)
held_cons m layer e count counts j first all (suc x) c at some_c =
    let (i, h) = all x c at some_c in (i, rw (shift e x) at h)

gather-skip :
    (layer e count : ℕ) (counts : List ℕ) (m : SlotMgr)
    → (count == 0) ≡ true
    → gather layer e (count ∷ counts) m ≡ gather layer (suc e) counts m
unfolding gather
gather-skip layer e count counts m h = rw h refl

gather-want :
    (layer e count : ℕ) (counts : List ℕ) (m t : SlotMgr)
    → (count == 0) ≡ false
    → want (layer, e) m ≡ some t
    → gather layer e (count ∷ counts) m ≡ gather layer (suc e) counts t
unfolding gather
gather-want layer e count counts m t h w = rw (h, w) refl

-- With a slot for each expert that has tokens, the loop ends with all of them held.
pub gather-Held :
    (layer e : ℕ) (counts : List ℕ) (m : SlotMgr)
    → Inv m
    → LayerFits m layer
    → wanted counts + length m.used ≤ length m.slots
    → m.clock + wanted counts < top64
    → (m' : SlotMgr) × (gather layer e counts m ≡ some m')
      × Inv m'
      × Keeps m m'
      × AllHeld m' layer e counts
unfolding gather
gather-Held layer e [] m h f room ticks = (m, refl, h, Keeps-refl m, λ x c at n. absurd (cc))
gather-Held layer e (count ∷ counts) m h f room ticks = elim (Bool-cases (count == 0)) [
  | inl none_here ↦
      let zero_here : count ≡ 0 = ground arith in
      let (m', e', inv, keeps, all) =
        gather-Held layer (suc e) counts m h f (ground arith) (ground arith) in
      (
        m',
        gather-skip layer e count counts m none_here ∙ e',
        inv,
        keeps,
        held_skip m' layer e count counts zero_here all,
      )
  | inr some_here ↦
      let one_more : wanted (count ∷ counts) ≡ suc (wanted counts) = rw some_here refl in
      let (j, t, e', r) =
        want-Held m h (layer, e) (LayerFits-Fits m layer e f) (omega (arith, room, one_more))
          (omega (arith, ticks, one_more)) in
      let (m', e'', inv, keeps, all) =
        gather-Held layer (suc e) counts t r.inv (fits_after m t layer r.keeps f)
          (omega (arith, room, one_more, r.one_more, r.keeps.as_many))
          (omega (arith, ticks, one_more, r.one_tick)) in
      (
        m',
        gather-want layer e count counts m t some_here e' ∙ e'',
        inv,
        Keeps-trans r.keeps keeps,
        held_cons m' layer e count counts j (keeps.holds j (layer, e) r.holds) all,
      )
]
