-- ===== src/Prelude/Text.antt =====
-- String literals as bytes, and strings joined.
use Prim.Native.Nat.{ℕ}
use Prim.Native.Char.{code}
pub use Prim.Native.String.{String}
use mathlib.Core.List.{List, [], ◌∷◌, ◌++◌}

abbrev pub codes : String → List ℕ
codes String.[] = []
codes (String.◌∷◌ c s) = code c ∷ codes s

module _ {ℓ} {A : Type ℓ} where
  abbrev pub concat : List (List A) → List A
  concat [] = []
  concat (xs ∷ xss) = xs ++ concat xss
