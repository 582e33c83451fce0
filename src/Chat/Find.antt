-- ===== src/Chat/Find.antt =====
-- Searching for tags in a text, as std::string::find does, and the earliest of several tags
-- (src/core/chat.cpp). Positions count from the start of the string that is searched.
pub mod Extend
pub mod Earliest
use helios_glm53flash.Prelude.{
  ℕ, zero, suc, ◌+◌, Bool, true, false, ◌&&◌, List, [], ◌∷◌, Option, none, some, drop, ltb, ◌==◌,
  if◌then◌else◌,
}

unfoldable pub begins_with : List ℕ → List ℕ → Bool
begins_with [] s = true
begins_with (x ∷ tag) [] = false
begins_with (x ∷ tag) (c ∷ s) = let rest = begins_with tag s in (c == x) && rest

abbrev pub one_later : Option ℕ → Option ℕ
one_later none = none
one_later (some i) = some (suc i)

-- `s.find(tag)`; no tag is empty.
unfoldable pub find_tag : List ℕ → List ℕ → Option ℕ
unfolding begins_with
find_tag tag [] = none
find_tag tag (c ∷ s) =
    let later = find_tag tag s in if begins_with tag (c ∷ s) then some 0 else one_later later

abbrev pub later_by : ℕ → Option ℕ → Option ℕ
later_by n none = none
later_by n (some i) = some (n + i)

-- `s.find(tag, pos)`
unfoldable pub find_from : List ℕ → List ℕ → ℕ → Option ℕ
unfolding find_tag
find_from tag s pos = later_by pos (find_tag tag (drop pos s))

-- `f < best`, where no position is above every position.
abbrev pub sooner : ℕ → Option (ℕ × List ℕ) → Bool
sooner f none = true
sooner f (some best) = ltb f best.0

-- `best` and `which` after one tag.
unfoldable pub offer : ℕ → List ℕ → Option ℕ → Option (ℕ × List ℕ) → Option (ℕ × List ℕ)
offer limit tag none best = best
offer limit tag (some f) best = if ltb f limit && sooner f best then some (f, tag) else best

unfoldable pub earliest_of : ℕ → List ℕ → List (List ℕ) → Option (ℕ × List ℕ) → Option (ℕ × List ℕ)
unfolding offer find_tag
earliest_of limit s [] best = best
earliest_of limit s (tag ∷ tags) best =
    earliest_of limit s tags (offer limit tag (find_tag tag s) best)
