-- ===== src/Prefix.antt =====
-- The cross-request prefix cache policy, src/engine/prefix.hpp: where a new prompt may resume
-- against the token history that the caches hold. An `int` position that the source keeps at 0 or
-- above is a number; the snapshot positions and the slot, where -1 stands for "none", are options.
pub mod Resume
pub mod Newest
pub mod Branch
mod Tests
use helios_glm53flash.Prelude.{
  ℕ, zero, suc, ◌+◌, ◌-◌, ◌*◌, ◌/◌, ◌%◌, min, max, Bool, true, false, ◌&&◌, List, [], ◌∷◌, Option,
  none, some, length, ltb, leb, ◌==◌, if◌then◌else◌,
}

-- Tokens per indexer pool.
abbrev pub pool_tokens : ℕ
pool_tokens = 4

-- The last pool boundary strictly before `end`.
unfoldable pub prefix_checkpoint_before : ℕ → ℕ
prefix_checkpoint_before end = if ltb 0 end then (end - 1) / pool_tokens * pool_tokens else 0

-- One round of the loop that discards: the slot after it.
abbrev pub discard_slot : ℕ → Option ℕ → Option ℕ
discard_slot resume none = none
discard_slot resume (some pos) = if ltb resume pos then none else some pos

abbrev pub latest_of : ℕ → Option ℕ → ℕ
latest_of latest none = latest
latest_of latest (some pos) = max latest pos

-- The loop over the slots: the slots that stay, and the latest position among them.
discard_from : ℕ → ℕ → List (Option ℕ) → List (Option ℕ) × ℕ
discard_from resume latest [] = ([], latest)
discard_from resume latest (slot ∷ slots) =
    let kept = discard_slot resume slot in
    let rest = discard_from resume (latest_of latest kept) slots in (kept ∷ rest.0, rest.1)

-- States of a discarded suffix are dropped; with the slots comes the latest position left.
unfoldable pub prefix_discard_suffix : List (Option ℕ) → ℕ → List (Option ℕ) × ℕ
unfolding discard_from
prefix_discard_suffix snap_pos resume = discard_from resume 0 snap_pos

pub record PrefixPlan : Type 0 where
  pub common : ℕ
  pub resume : ℕ
  pub slot : Option ℕ
  pub extend : Bool

-- The scan `while (L < lim && L < ps && prompt[L] == hist[L]) L++`: its final L.
unfoldable pub shared : ℕ → List ℕ → List ℕ → ℕ
shared zero prompt hist = 0
shared (suc lim) [] hist = 0
shared (suc lim) (p ∷ prompt) [] = 0
shared (suc lim) (p ∷ prompt) (h ∷ hist) =
    let rest = shared lim prompt hist in if p == h then suc rest else 0

-- `best < 0 || snap_pos[i] > snap_pos[best]`, for a best that is kept with its position.
abbrev pub beats : ℕ → Option (ℕ × ℕ) → Bool
beats pos none = true
beats pos (some (j, best)) = ltb best pos

abbrev pub better : ℕ → ℕ → Option ℕ → Option (ℕ × ℕ) → Option (ℕ × ℕ)
better limit i none best = best
better limit i (some pos) best =
    if leb pos limit && (pos % pool_tokens == 0) && beats pos best then some (i, pos) else best

-- The scan for the newest usable snapshot: its slot and its position.
unfoldable pub newest : ℕ → ℕ → List (Option ℕ) → Option (ℕ × ℕ) → Option (ℕ × ℕ)
newest limit i [] best = best
newest limit i (slot ∷ slots) best = newest limit (suc i) slots (better limit i slot best)

-- The resume of a prompt that does not just extend the history.
unfoldable pub rewind : ℕ → Option (ℕ × ℕ) → PrefixPlan
rewind common none = record { common = common; resume = 0; slot = none; extend = false }
rewind common (some (i, pos)) = record {
  common = common;
  resume = pos;
  slot = some i;
  extend = false;
}

-- The last prompt token is always run again: `if (L >= ps) L = ps - 1; if (L < 0) L = 0`.
unfoldable pub replay_point : ℕ → List ℕ → ℕ
replay_point common prompt = if leb (length prompt) common then length prompt - 1 else common

-- Extend the resident state if it covers the resume point exactly, else wind back to a snapshot.
unfoldable pub plan_at : ℕ → ℕ → List ℕ → ℕ → List (Option ℕ) → PrefixPlan
unfolding rewind
plan_at common point hist pos snap_pos =
    if (point == pos) && (point == length hist)
    then record { common = common; resume = point; slot = none; extend = true }
    else rewind common (newest point 0 snap_pos none)

unfoldable pub prefix_plan : List ℕ → ℕ → List ℕ → List (Option ℕ) → ℕ → PrefixPlan
prefix_plan hist pos prompt snap_pos reuse_limit =
    let common = shared (min (min (length hist) pos) reuse_limit) prompt hist in
    plan_at common (replay_point common prompt) hist pos snap_pos
