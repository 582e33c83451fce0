-- ===== src/Chat/Tests.antt =====
-- The hold-back of a text that ends in the beginning of a marker, and of one that does not.
use helios_glm53flash.Prelude.{ℕ, ◌≡◌, ◌≤◌, ◌⊎◌, refl, List, [], ◌∷◌, some, get_elem?, same_words}
use helios_glm53flash.Chat.{marks, longest_of, longest_among, holdback_len}
use helios_glm53flash.Chat.Holdback.{Begins, Reached, holdback_len-Reached}

-- `a<to`
abbrev opening : List ℕ
opening = 0x61 ∷ 0x3c ∷ 0x74 ∷ 0x6f ∷ []

opening_held : holdback_len opening ≡ 3
unfolding holdback_len longest_among longest_of same_words
opening_held = refl

plain_not_held : holdback_len (0x61 ∷ 0x3e ∷ 0x62 ∷ []) ≡ 0
unfolding holdback_len longest_among longest_of same_words
plain_not_held = refl

holdback_len-Reached_example :
    ((holdback_len opening ≡ 0) ⊎ Reached marks opening (holdback_len opening))
    × ((k i : ℕ) (m : List ℕ)
        → get_elem? marks i ≡ some m
        → Begins opening m k
        → k ≤ holdback_len opening)
holdback_len-Reached_example = holdback_len-Reached opening
