-- ===== src/Prefix/Branch.antt =====
-- What `prefix_discard_suffix` keeps, and where `prefix_checkpoint_before` stops.
use helios_glm53flash.Prelude.{
  ℕ, zero, suc, ◌+◌, ◌%◌, ◌≤◌, ◌<◌, max, ◌≡◌, refl, List, [], ◌∷◌, Option, none, some, arith,
  get_elem?, length, sym, ◌∙◌,
}
use helios_glm53flash.Prefix.{
  discard_slot, latest_of, discard_from, prefix_discard_suffix, prefix_checkpoint_before,
}

abbrev discarded : ℕ → Option (Option ℕ) → Option (Option ℕ)
discarded resume none = none
discarded resume (some slot) = some (discard_slot resume slot)

discarded-some :
    (resume : ℕ) (o : Option (Option ℕ)) (pos : ℕ)
    → discarded resume o ≡ some (some pos)
    → (o ≡ some (some pos)) × (pos ≤ resume)
discarded-some resume none pos e = absurd (cc)
discarded-some resume (some none) pos e = absurd (ground arith)
discarded-some resume (some (some p)) pos e = ground arith

-- Each slot is judged on its own.
discard_from-slot :
    (resume latest : ℕ) (slots : List (Option ℕ)) (i : ℕ)
    → get_elem? (discard_from resume latest slots).0 i ≡ discarded resume (get_elem? slots i)
unfolding discard_from
discard_from-slot resume latest [] i = refl
discard_from-slot resume latest (slot ∷ slots) zero = refl
discard_from-slot resume latest (slot ∷ slots) (suc i) =
    discard_from-slot resume (latest_of latest (discard_slot resume slot)) slots i

discard_from-length :
    (resume latest : ℕ) (slots : List (Option ℕ))
    → length (discard_from resume latest slots).0 ≡ length slots
unfolding discard_from
discard_from-length resume latest [] = refl
discard_from-length resume latest (slot ∷ slots) =
    omega (arith, discard_from-length resume (latest_of latest (discard_slot resume slot)) slots)

discard_from-grows :
    (resume latest : ℕ) (slots : List (Option ℕ)) → latest ≤ (discard_from resume latest slots).1
unfolding discard_from
discard_from-grows resume latest [] = omega arith
discard_from-grows resume latest (none ∷ slots) = discard_from-grows resume latest slots
discard_from-grows resume latest (some pos ∷ slots) = ground (
  arith,
  discard_from-grows resume latest slots,
  discard_from-grows resume (max latest pos) slots,
)

discard_from-latest :
    (resume latest : ℕ) (slots : List (Option ℕ)) (i pos : ℕ)
    → get_elem? (discard_from resume latest slots).0 i ≡ some (some pos)
    → pos ≤ (discard_from resume latest slots).1
unfolding discard_from
discard_from-latest resume latest [] i pos e = absurd (cc)
discard_from-latest resume latest (none ∷ slots) zero pos e = absurd (ground arith)
discard_from-latest resume latest (some p ∷ slots) zero pos e =
    ground (arith, discard_from-grows resume (max latest p) slots)
discard_from-latest resume latest (slot ∷ slots) (suc i) pos e =
    discard_from-latest resume (latest_of latest (discard_slot resume slot)) slots i pos e

discard_from-le :
    (resume latest : ℕ) (slots : List (Option ℕ))
    → latest ≤ resume
    → (discard_from resume latest slots).1 ≤ resume
unfolding discard_from
discard_from-le resume latest [] h = h
discard_from-le resume latest (none ∷ slots) h = discard_from-le resume latest slots h
discard_from-le resume latest (some pos ∷ slots) h =
    ground
      (arith, discard_from-le resume latest slots h, discard_from-le resume (max latest pos) slots)

-- After a resume: a slot holds a position exactly when it held it before and the position is not
-- beyond the resume point; the slots are as many as before; and the latest position returned
-- bounds every slot's and is itself within the resume point.
pub record Discards (before : List (Option ℕ)) (resume : ℕ) (after : List (Option ℕ)) (latest : ℕ)
    : Type 0 where
  pub kept :
      (i pos : ℕ)
      → get_elem? before i ≡ some (some pos)
      → pos ≤ resume
      → get_elem? after i ≡ some (some pos)
  pub from_before :
      (i pos : ℕ)
      → get_elem? after i ≡ some (some pos)
      → (get_elem? before i ≡ some (some pos)) × (pos ≤ resume)
  pub as_many : length after ≡ length before
  pub bounded : (i pos : ℕ) → get_elem? after i ≡ some (some pos) → pos ≤ latest
  pub within : latest ≤ resume

-- `prefix_discard_suffix` keeps exactly the snapshots at or below the resume point, in as many slots,
-- and returns a bound of their positions that is within the resume point.
pub prefix_discard_suffix-Discards :
    (snap_pos : List (Option ℕ)) (resume : ℕ)
    → Discards snap_pos resume
        (prefix_discard_suffix snap_pos resume).0
        (prefix_discard_suffix snap_pos resume).1
unfolding prefix_discard_suffix
prefix_discard_suffix-Discards snap_pos resume = record {
  kept = λ i pos e h. discard_from-slot resume 0 snap_pos i ∙ rw e (ground arith);
  from_before = λ i pos e.
      discarded-some resume (get_elem? snap_pos i) pos
        (sym (discard_from-slot resume 0 snap_pos i) ∙ e);
  as_many = discard_from-length resume 0 snap_pos;
  bounded = discard_from-latest resume 0 snap_pos;
  within = discard_from-le resume 0 snap_pos (omega arith);
}

-- The checkpoint is the last pool boundary strictly before a positive end.
pub prefix_checkpoint_before_lem :
    (end : ℕ)
    → 0 < end
    → let at = prefix_checkpoint_before end in (at % 4 ≡ 0) × (at < end) × (end ≤ at + 4)
unfolding prefix_checkpoint_before
prefix_checkpoint_before_lem end h = ground arith
