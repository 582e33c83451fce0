-- ===== src/Images/Tests.antt =====
-- The image cache with two images in a budget of sixteen bytes.
use helios_glm53flash.Prelude.{same_words, ℕ, ◌≤◌, ◌≡◌, refl, [], ◌∷◌, some, arith, take}
use helios_glm53flash.Images.{
  ImageEmbedding, Entry, ImageEmbeddingCache, find_entry, erase_entry, get, put, image_prefix_limit,
  make_room, drop_old, has_image, pop_back, back,
}
use helios_glm53flash.Images.Cache.{Wf}
use helios_glm53flash.Images.Limit.{AgreeBelow, image_prefix_limit-AgreeBelow}
use helios_glm53flash.Images.Put.{put-Wf, get-put, get-Wf}

abbrev cat : ImageEmbedding
cat = record { start = 4; rows = 1; hidden = 2; values = 5 ∷ 6 ∷ [] }

abbrev dog : ImageEmbedding
dog = record { start = 9; rows = 1; hidden = 3; values = 7 ∷ 8 ∷ 9 ∷ [] }

abbrev stored : ImageEmbeddingCache
stored = record {
  entries =
      record { url = 1 ∷ 2 ∷ []; image = cat; bytes = 6 }
      ∷ record { url = 3 ∷ []; image = dog; bytes = 7 }
      ∷ [];
  budget = 16;
  bytes = 13;
}

stored-Wf : Wf stored
unfolding find_entry same_words
stored-Wf = record {
  counted = refl;
  within = omega arith;
  weighed = (refl, (refl, tt));
  distinct = (refl, (refl, tt));
}

-- The least recently used image makes room.
dog_evicted :
    (put (4 ∷ []) cat stored).entries
    ≡ record { url = 4 ∷ []; image = cat; bytes = 5 }
      ∷ record { url = 1 ∷ 2 ∷ []; image = cat; bytes = 6 }
      ∷ []
unfolding put make_room drop_old find_entry same_words pop_back back
dog_evicted = refl

cat_only : image_prefix_limit (cat ∷ dog ∷ []) (cat ∷ []) ≡ 9
unfolding image_prefix_limit has_image same_words
cat_only = refl

put-Wf_example :
    Wf (put (4 ∷ []) cat stored)
    × ((k : ℕ) × ((put (4 ∷ []) cat stored).entries
          ≡ record { url = 4 ∷ []; image = cat; bytes = 5 }
            ∷ take k (erase_entry (4 ∷ []) stored.entries)))
put-Wf_example = put-Wf (4 ∷ []) cat stored stored-Wf (omega arith)

get-put_example : (get (4 ∷ []) (put (4 ∷ []) cat stored)).0 ≡ some cat
get-put_example = get-put (4 ∷ []) cat stored stored-Wf (omega arith)

get-Wf_example :
    let t = (get (3 ∷ []) stored).1 in
    Wf t
    × (t.bytes ≡ stored.bytes)
    × (t.budget ≡ stored.budget)
    × ((e : Entry)
        → find_entry (3 ∷ []) stored.entries ≡ some e
        → t.entries ≡ e ∷ erase_entry (3 ∷ []) stored.entries)
get-Wf_example = get-Wf (3 ∷ []) stored stored-Wf

image_prefix_limit-AgreeBelow_example :
    let limit = image_prefix_limit (cat ∷ dog ∷ []) (cat ∷ []) in
    (limit ≤ 2147483647)
    × AgreeBelow limit (cat ∷ dog ∷ []) (cat ∷ [])
    × ((n : ℕ) → n ≤ 2147483647 → AgreeBelow n (cat ∷ dog ∷ []) (cat ∷ []) → n ≤ limit)
image_prefix_limit-AgreeBelow_example = image_prefix_limit-AgreeBelow (cat ∷ dog ∷ []) (cat ∷ [])
