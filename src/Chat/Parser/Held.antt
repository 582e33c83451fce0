-- ===== src/Chat/Parser/Held.antt =====
-- Before the text that is held back no marker straddles the end of the buffer.
use helios_glm53flash.Prelude.{
  ℕ, ◌-◌, ◌≡◌, refl, sym, ◌∙◌, inl, inr, List, ◌++◌, some, arith, length, drop, length-drop,
  get_elem?, leb, Bool-cases, All,
}
use helios_glm53flash.Chat.{marks, tool_end, holdback_len}
use helios_glm53flash.Chat.Find.{begins_with}
use helios_glm53flash.Chat.Find.Extend.{
  SameBelow, begins_with-append, begins_with-length, begins_with-short,
}
use helios_glm53flash.Chat.Holdback.{Begins, holdback_len-Reached}
use helios_glm53flash.Chat.Parser.{drain_marks}

-- The number of bytes that `drain` may look at.
abbrev pub limit_of : List ℕ → ℕ
limit_of b = length b - holdback_len b

mark-SameBelow :
    (b x m : List ℕ) (i : ℕ) → get_elem? marks i ≡ some m → SameBelow (limit_of b) m b x
mark-SameBelow b x m index listed i lt =
    let t = drop i b in
    let size = length-drop i b in
    elim (Bool-cases (leb (length m) (length t))) [
      | inl long ↦ begins_with-append m t x (ground arith)
      | inr short ↦ elim (Bool-cases (begins_with m t)) [
        | inl here ↦ absurd (ground (arith, begins_with-length m t here))
        | inr not_here ↦ elim (Bool-cases (begins_with m (t ++ x))) [
          | inr not_later ↦ not_later ∙ sym not_here
          | inl straddles ↦
              let back : length b - length t ≡ i = omega arith in
              let begins : Begins b m (length t) = record {
                some_bytes = omega arith;
                proper = ground arith;
                within = omega arith;
                same = rw back (begins_with-short m t x straddles (ground arith));
              } in
              absurd (omega (arith, (holdback_len-Reached b).1 (length t) index m listed begins))
        ]
      ]
    ]

pub tool_end-SameBelow : (b x : List ℕ) → SameBelow (limit_of b) tool_end b x
tool_end-SameBelow b x = mark-SameBelow b x tool_end 2 refl

pub drain_marks-SameBelow : (b x : List ℕ) → All (λ tag. SameBelow (limit_of b) tag b x) drain_marks
drain_marks-SameBelow b x = (
  mark-SameBelow b x _ 0 refl,
  (
    mark-SameBelow b x _ 1 refl,
    (
      mark-SameBelow b x _ 3 refl,
      (
        mark-SameBelow b x _ 4 refl,
        (
          mark-SameBelow b x _ 5 refl,
          (
            mark-SameBelow b x _ 6 refl,
            (mark-SameBelow b x _ 7 refl, (mark-SameBelow b x _ 8 refl, tt)),
          ),
        ),
      ),
    ),
  ),
)
