-- ===== src/Experts/Tests.antt =====
-- A layer of two experts of 3, 4 and 2 bits, with a hidden size of 64 and an intermediate size of 32.
use helios_glm53flash.Prelude.{
  ℕ, ◌*◌, ◌/◌, ◌≡◌, ◌%◌, refl, List, [], ◌∷◌, ◌++◌, Option, none, some, codes, same_words,
  if◌then◌else◌,
}
use helios_glm53flash.Experts.{
  TensorInfo, ShardSet, ExpertLayout, expert_layout, base_name, f16, i16, i32,
}
use helios_glm53flash.Chat.Calls.{digits_before}
use helios_glm53flash.Experts.Layout.{Laid, expert_layout-Laid}

abbrev tensor : ℕ → ℕ → List ℕ → TensorInfo
tensor dtype bytes shape = record { dtype = dtype; bytes = bytes; shape = shape }

abbrev projection : ℕ → ℕ → ℕ → List ℕ → List (List ℕ × TensorInfo) → List (List ℕ × TensorInfo)
projection rows cols bits base rest =
    (
      base ++ codes ".trellis",
      tensor i16 (rows * cols * bits / 8) (rows / 16 ∷ cols / 16 ∷ bits * 16 ∷ []),
    )
    ∷ (base ++ codes ".suh", tensor f16 (rows * 2) (rows ∷ []))
    ∷ (base ++ codes ".svh", tensor f16 (cols * 2) (cols ∷ []))
    ∷ (base ++ codes ".mul1", tensor i32 4 [])
    ∷ rest

abbrev expert : ℕ → List (List ℕ × TensorInfo) → List (List ℕ × TensorInfo)
expert e rest =
    projection 64 32 3 (base_name 1 e 0)
      (projection 64 32 4 (base_name 1 e 1) (projection 32 64 2 (base_name 1 e 2) rest))

named : List ℕ → List (List ℕ × TensorInfo) → Option TensorInfo
named name [] = none
named name (t ∷ tensors) =
    let rest = named name tensors in if same_words name t.0 then some t.1 else rest

abbrev shards : ShardSet
shards = record { find = λ name. named name (expert 0 (expert 1 [])); read_word = λ t. 0x83dcd12d }

abbrev layout : ExpertLayout
layout = record {
  off = 0 ∷ 768 ∷ 896 ∷ 960 ∷ 1024 ∷ 2048 ∷ 2176 ∷ 2240 ∷ 2304 ∷ 2816 ∷ 2880 ∷ 3008 ∷ [];
  piece = 768 ∷ 128 ∷ 64 ∷ 4 ∷ 1024 ∷ 128 ∷ 64 ∷ 4 ∷ 512 ∷ 64 ∷ 128 ∷ 4 ∷ [];
  bits = 3 ∷ 4 ∷ 2 ∷ [];
  stride = 3072;
}

laid_out : expert_layout shards 1 2 64 32 ≡ some layout
unfolding expert_layout named same_words digits_before
laid_out = refl

expert_layout-Laid_example : Laid 0 3072 layout.piece layout.off × (3072 % 64 ≡ 0)
expert_layout-Laid_example = expert_layout-Laid shards 1 2 64 32 layout laid_out

-- Two sizes of the first projection are refused.
mixed :
    expert_layout
      (record {
        find = λ name. named name (projection 64 32 4 (base_name 1 1 0) (expert 0 (expert 1 [])));
        read_word = λ t. 0x83dcd12d;
      })
      1
      2
      64
      32
    ≡ none
unfolding expert_layout named same_words digits_before
mixed = refl
