-- ===== src/Experts.antt =====
-- The layout of a layer's experts in memory, src/core/expert_layout.cpp: the tensors of every expert are
-- checked, and the twelve pieces of an expert get their offsets. A none is a throw. Sizes are
-- natural numbers, and the tensors of the shards are a parameter.
pub mod Layout
mod Tests
use helios_glm53flash.Prelude.{
  ◌>>=◌, ℕ, zero, suc, ◌+◌, ◌-◌, ◌*◌, ◌/◌, ◌%◌, Bool, true, false, ◌&&◌, ◌||◌, not, List, [], ◌∷◌,
  ◌++◌, Option, none, some, length, replicate, codes, ltb, leb, ◌==◌, if◌then◌else◌, same_words,
}
use helios_glm53flash.Chat.Calls.{digits_before}

-- `enum class Dtype`, by number
abbrev pub f16 : ℕ
f16 = 0

abbrev pub i32 : ℕ
i32 = 4

abbrev pub i16 : ℕ
i16 = 5

pub record TensorInfo : Type 0 where
  pub dtype : ℕ
  pub bytes : ℕ
  pub shape : List ℕ

-- ShardSet::find, and ShardSet::read of a tensor of four bytes.
pub record ShardSet : Type 0 where
  pub find : List ℕ → Option TensorInfo
  pub read_word : TensorInfo → ℕ

pub record ExpertLayout : Type 0 where
  pub off : List ℕ
  pub piece : List ℕ
  pub bits : List ℕ
  pub stride : ℕ

abbrev pub to_string : ℕ → List ℕ
to_string n = digits_before (suc n) n []

abbrev pub proj : ℕ → List ℕ
proj zero = codes "gate_proj"
proj (suc zero) = codes "up_proj"
proj (suc (suc p)) = codes "down_proj"

unfoldable pub base_name : ℕ → ℕ → ℕ → List ℕ
base_name layer e p =
    codes "model.language_model.layers."
    ++ (to_string layer ++ (codes ".mlp.experts." ++ (to_string e ++ (codes "." ++ proj p))))

-- The bits of a trellis of this shape; 7 has no kernel.
unfoldable pub trellis_bits : ℕ → ℕ → List ℕ → Option ℕ
trellis_bits rows cols [] = none
trellis_bits rows cols (a ∷ []) = none
trellis_bits rows cols (a ∷ b ∷ []) = none
trellis_bits rows cols (a ∷ b ∷ c ∷ d ∷ shape) = none
trellis_bits rows cols (a ∷ b ∷ c ∷ []) =
    if (a == rows / 16)
      && ((b == cols / 16) && ((c % 16 == 0) && (leb 32 c && (leb c 128 && not (c / 16 == 7)))))
    then some (c / 16)
    else none

abbrev pub piece_bytes : ℕ → ℕ → ℕ → List ℕ
piece_bytes rows cols bits = rows * cols * bits / 8 ∷ rows * 2 ∷ cols * 2 ∷ 4 ∷ []

abbrev pub has : TensorInfo → ℕ → ℕ → Bool
has t bytes dtype = (t.bytes == bytes) && (t.dtype == dtype)

-- What the inner loop checks of a projection: its bits, and the bytes of its four tensors.
unfoldable pub check_projection : ShardSet → ℕ → ℕ → ℕ → List ℕ → Option (ℕ × List ℕ)
unfolding trellis_bits
check_projection shards rows cols p base = do
  trellis ← shards.find (base ++ codes ".trellis")
  suh ← shards.find (base ++ codes ".suh")
  svh ← shards.find (base ++ codes ".svh")
  mul1 ← shards.find (base ++ codes ".mul1")
  bits ← trellis_bits rows cols trellis.shape
  if same_words suh.shape (rows ∷ [])
        && (same_words svh.shape (cols ∷ [])
            && (same_words mul1.shape []
                && (has trellis (rows * cols * bits / 8) i16
                    && (has suh (rows * 2) f16
                        && (has svh (cols * 2) f16
                            && (has mul1 4 i32 && (shards.read_word mul1 == 0x83dcd12d)))))))
      then some (bits, piece_bytes rows cols bits)
      else none

-- The pieces of an expert, and the bits of its projections.
unfoldable pub check_expert : ShardSet → ℕ → ℕ → ℕ → ℕ → Option (List ℕ × List ℕ)
unfolding check_projection base_name
check_expert shards layer hidden intermediate e = do
  gate ← check_projection shards hidden intermediate 0 (base_name layer e 0)
  up ← check_projection shards hidden intermediate 1 (base_name layer e 1)
  down ← check_projection shards intermediate hidden 2 (base_name layer e 2)
  some (gate.1 ++ (up.1 ++ down.1), gate.0 ∷ up.0 ∷ down.0 ∷ [])

-- The experts from `e` on: the pieces of the first are those of all.
unfoldable pub check_experts :
    (ℕ → Option (List ℕ × List ℕ)) → ℕ → ℕ → List ℕ × List ℕ → Option (List ℕ × List ℕ)
check_experts check zero e found = some found
check_experts check (suc n) e found = do
  r ← check e
  if (e == 0) || same_words r.0 found.0 then check_experts check n (suc e) r else none

-- `(stride + 63) & ~63`
abbrev pub align64 : ℕ → ℕ
align64 n = (n + 63) / 64 * 64

-- The last loop from index `q` on: the offsets, and the stride at the end.
unfoldable pub place : ℕ → ℕ → List ℕ → List ℕ × ℕ
place q stride [] = ([], stride)
place q stride (piece ∷ pieces) =
    let rest =
      place (suc q) (if q % 4 == 3 then align64 (stride + piece) else stride + piece) pieces in
    (stride ∷ rest.0, rest.1)

abbrev pub no_experts : List ℕ × List ℕ
no_experts = (replicate 12 0, replicate 3 0)

unfoldable pub expert_layout : ShardSet → ℕ → ℕ → ℕ → ℕ → Option ExpertLayout
unfolding check_expert check_experts place
expert_layout shards layer experts hidden intermediate = do
  found ← check_experts (check_expert shards layer hidden intermediate) experts 0 no_experts
  some (record {
    off = (place 0 0 found.0).0;
    piece = found.0;
    bits = found.1;
    stride = (place 0 0 found.0).1;
  })
