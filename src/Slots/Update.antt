-- ===== src/Slots/Update.antt =====
-- An update of one slot that keeps its expert: it keeps the invariant, and, if a busy
-- slot stays busy, what the step holds.
use helios_glm53flash.Prelude.{
  ℕ, ◌+◌, ◌≤◌, ◌≡◌, ◌≢◌, ◌⊎◌, sym, ap, ◌∙◌, inl, inr, true, false, none, some, arith, length,
  get_elem?, set, length-set,
}
use helios_glm53flash.Slots.State.{Slot, SlotMgr, member}
use helios_glm53flash.Slots.Table.{bit, set_cases, update-Sound}
use helios_glm53flash.Slots.Invariant.{Inv, Keeps, set-holds}

-- Slot `i` changes from `s` to `s'`, with the same expert.
pub record Update (m m' : SlotMgr) (i : ℕ) (s s' : Slot) : Type 0 where
  pub there : get_elem? m.slots i ≡ some s
  pub replaced : m'.slots ≡ set m.slots i s'
  pub same_owner : s'.owner ≡ s.owner
  pub loose : s'.owner ≡ none → s'.pinned ≡ false
  pub adjusted : m'.pinned_count + bit s.pinned ≡ m.pinned_count + bit s'.pinned
  pub listed : s'.busy ≡ true → (member i m'.used ≡ true) × (s'.owner ≢ none)
  pub more_used : (j : ℕ) → member j m.used ≡ true → member j m'.used ≡ true
  pub later : m.clock ≤ m'.clock
  pub dated : s'.last_used ≤ m'.clock
  pub same_index : m'.index ≡ m.index
  pub same_held : m'.held ≡ m.held
  pub same_census : m'.census ≡ m.census
  pub same_slabs : m'.slab_bytes ≡ m.slab_bytes
  pub same_stride : m'.stride ≡ m.stride

module _ {m m' : SlotMgr} {i : ℕ} {s s' : Slot} (h : Inv m) (u : Update m m' i s s') where
  old_slot :
      (j : ℕ) (x : Slot)
      → get_elem? m'.slots j ≡ some x
      → ((i ≡ j) × (s' ≡ x)) ⊎ ((i ≢ j) × (get_elem? m.slots j ≡ some x))
  old_slot j x e = set_cases m.slots i j x s' (rw u.replaced at e)

  pub Update-Inv : Inv m'
  Update-Inv = record {
    sound =
        rw (u.replaced, u.same_index, u.same_held)
          (update-Sound h.sound i s s' m'.pinned_count u.there u.same_owner u.loose u.adjusted);
    words = rw u.same_census h.words;
    listed = λ j x e b. elim (old_slot j x e) [
      | inl (p, q) ↦
          let (on, own) = u.listed (ap (λ (z : Slot). z.busy) q ∙ b) in
          (
            ap (λ k. member k m'.used) (sym p) ∙ on,
            λ none_x. own (ap (λ (z : Slot). z.owner) q ∙ none_x),
          )
      | inr (p, q) ↦ let (on, own) = h.listed j x q b in (u.more_used j on, own)
    ];
    recent = λ j x e. elim (old_slot j x e) [
      | inl (p, q) ↦ omega (arith, u.dated, ap (λ (z : Slot). z.last_used) q)
      | inr (p, q) ↦ omega (arith, h.recent j x q, u.later)
    ];
  }

  -- What the step holds stays held when a busy slot stays busy.
  pub Update-Keeps : (s.busy ≡ true → s'.busy ≡ true) → Keeps m m'
  Update-Keeps still = record {
    holds = λ j o k.
        let (y, at, own, busy) =
          set-holds m.slots i s s' u.there u.same_owner still j k.owner k.slot k.there k.owned
            k.busy in
        record {
          slot = y;
          there = rw u.replaced at;
          owner = k.owner;
          owned = own;
          keyed = k.keyed;
          busy = busy;
        };
    as_many = ap length u.replaced ∙ length-set m.slots i s';
    same_slabs = u.same_slabs;
    same_stride = u.same_stride;
  }
