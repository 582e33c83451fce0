-- ===== src/Prelude/Words.antt =====
-- Equality of strings and of vectors of words, `==` in the source.
use Prim.Native.Nat.{ℕ}
use mathlib.Core.Path.{◌≡◌, refl}
use mathlib.Core.Bool.{Bool, true, false, ◌&&◌}
use mathlib.Core.List.{List, [], ◌∷◌}
use native.Mathlib.Omega.{arith}
use helios_glm53flash.Prelude.Tests.{◌==◌}

unfoldable pub same_words : List ℕ → List ℕ → Bool
same_words [] [] = true
same_words [] (b ∷ vs) = false
same_words (a ∷ us) [] = false
same_words (a ∷ us) (b ∷ vs) = let rest = same_words us vs in (a == b) && rest

-- Equal lists of words pass the test, and no others.
pub same_words-eq : (us vs : List ℕ) → same_words us vs ≡ true → us ≡ vs
unfolding same_words
same_words-eq [] [] e = refl
same_words-eq [] (b ∷ vs) e = absurd (cc)
same_words-eq (a ∷ us) [] e = absurd (cc)
same_words-eq (a ∷ us) (b ∷ vs) e = ground (arith, same_words-eq us vs)

pub same_words_refl : (us : List ℕ) → same_words us us ≡ true
unfolding same_words
same_words_refl [] = refl
same_words_refl (a ∷ us) = ground (arith, same_words_refl us)
