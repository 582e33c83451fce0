-- ===== src/Prefix/Tests.antt =====
-- The prefix policy at concrete inputs, among them cases of src/engine/test_prefix.cpp in small.
use helios_glm53flash.Prelude.{
  ℕ, ◌+◌, ◌≤◌, ◌<◌, ◌%◌, ◌≡◌, refl, ◌↔◌, true, false, List, [], ◌∷◌, Option, none, some, arith,
  length, take,
}
use helios_glm53flash.Prefix.{
  prefix_plan, prefix_discard_suffix, prefix_checkpoint_before, plan_at, shared, replay_point,
  newest, rewind,
}
use helios_glm53flash.Prefix.Newest.{IsUsable}
use helios_glm53flash.Prefix.Resume.{
  IsSafe, resume-IsSafe, extend_iff, restore-IsUsable, resume_newest,
}
use helios_glm53flash.Prefix.Branch.{
  Discards, prefix_discard_suffix-Discards, prefix_checkpoint_before_lem,
}

program : Unit {0}
unfolding prefix_plan plan_at replay_point shared newest rewind
program = tt

abbrev resident : List ℕ
resident = 1 ∷ 2 ∷ 3 ∷ 4 ∷ 5 ∷ 6 ∷ 7 ∷ 8 ∷ 9 ∷ 10 ∷ []

abbrev branched : List ℕ
branched = 1 ∷ 2 ∷ 3 ∷ 4 ∷ 5 ∷ 6 ∷ 7 ∷ 99 ∷ 9 ∷ []

abbrev extended : List ℕ
extended = 1 ∷ 2 ∷ 3 ∷ 4 ∷ 5 ∷ 6 ∷ 7 ∷ 8 ∷ 9 ∷ 10 ∷ 11 ∷ []

abbrev slots : List (Option ℕ)
slots = none ∷ some 4 ∷ some 8 ∷ []

branch_restores :
    prefix_plan resident 10 branched slots 100
    ≡ record { common = 7; resume = 4; slot = some 1; extend = false }
unfolding program
branch_restores = refl

extension_keeps :
    prefix_plan resident 10 extended slots 100
    ≡ record { common = 10; resume = 10; slot = none; extend = true }
unfolding program
extension_keeps = refl

resume-IsSafe_example :
    IsSafe resident 10 branched 100 (prefix_plan resident 10 branched slots 100).resume
    × (0 < length branched → (prefix_plan resident 10 branched slots 100).resume < length branched)
resume-IsSafe_example = resume-IsSafe resident 10 branched 100 slots

extend_iff_example : ((prefix_plan resident 10 extended slots 100).extend ≡ true) ↔ (
    (10 ≡ length resident) × (10 < length extended) × (take 10 extended ≡ resident) × (◌≤◌ 10 100))
extend_iff_example = extend_iff resident 10 extended 100 slots (omega arith)

restore-IsUsable_example :
    IsUsable
      (prefix_plan resident 10 branched slots 100).common
      slots
      1
      (prefix_plan resident 10 branched slots 100).resume
    × ((prefix_plan resident 10 branched slots 100).extend ≡ false)
unfolding program
restore-IsUsable_example = restore-IsUsable resident 10 branched 100 slots 1 refl

resume_newest_example : 4 ≤ (prefix_plan resident 10 branched slots 100).resume
unfolding program
resume_newest_example =
    resume_newest resident 10 branched 100 slots 1 4
      (record { stored = refl; within = omega arith; aligned = refl }) (omega arith)

prefix_discard_suffix-Discards_example :
    Discards slots 4 (prefix_discard_suffix slots 4).0 (prefix_discard_suffix slots 4).1
prefix_discard_suffix-Discards_example = prefix_discard_suffix-Discards slots 4

prefix_checkpoint_before_example :
    (prefix_checkpoint_before 10 % 4 ≡ 0)
    × (prefix_checkpoint_before 10 < 10)
    × (◌≤◌ 10 (prefix_checkpoint_before 10 + 4))
prefix_checkpoint_before_example = prefix_checkpoint_before_lem 10 (omega arith)
