-- ===== src/Images.antt =====
-- Image embeddings, src/core/vision.cpp: how far cached tokens may be reused when a prompt has images,
-- and the server's cache of encoded images. A URL is its bytes; a value is its 16 bits.
pub mod Limit
pub mod Cache
pub mod Put
mod Tests
use helios_glm53flash.Prelude.{
  same_words, ℕ, zero, suc, ◌+◌, ◌-◌, ◌*◌, ◌^◌, min, Bool, true, false, ◌&&◌, not, List, [], ◌∷◌,
  Option, none, some, length, ltb, ◌==◌, if◌then◌else◌,
}

pub record ImageEmbedding : Type 0 where
  pub start : ℕ
  pub rows : ℕ
  pub hidden : ℕ
  pub values : List ℕ

abbrev pub same_image : ImageEmbedding → ImageEmbedding → Bool
same_image image other =
    (image.start == other.start)
    && ((image.rows == other.rows)
        && ((image.hidden == other.hidden) && same_words image.values other.values))

-- `std::find_if(...) != end()`
unfoldable pub has_image : ImageEmbedding → List ImageEmbedding → Bool
has_image image [] = false
has_image image (other ∷ images) =
    let rest = has_image image images in if same_image image other then true else rest

-- The largest `int`.
abbrev pub int_max : ℕ
int_max = 2 ^ 31 - 1

-- The lambda `scan`, with the limit so far.
unfoldable pub scan : ℕ → List ImageEmbedding → List ImageEmbedding → ℕ
scan limit [] b = limit
scan limit (image ∷ a) b = scan (if has_image image b then limit else min limit image.start) a b

unfoldable pub image_prefix_limit : List ImageEmbedding → List ImageEmbedding → ℕ
unfolding scan
image_prefix_limit previous current = scan (scan int_max previous current) current previous

-- ImageEmbeddingCache::Entry
pub record Entry : Type 0 where
  pub url : List ℕ
  pub image : ImageEmbedding
  pub bytes : ℕ

-- The most recently used entry stands first.
pub record ImageEmbeddingCache : Type 0 where
  pub entries : List Entry
  pub budget : ℕ
  pub bytes : ℕ

unfoldable pub find_entry : List ℕ → List Entry → Option Entry
find_entry url [] = none
find_entry url (e ∷ entries) =
    let rest = find_entry url entries in if same_words e.url url then some e else rest

-- Erase the first entry with the URL.
unfoldable pub erase_entry : List ℕ → List Entry → List Entry
erase_entry url [] = []
erase_entry url (e ∷ entries) =
    let rest = erase_entry url entries in if same_words e.url url then entries else e ∷ rest

-- ImageEmbeddingCache::get: the image, if it is there, and its entry moves to the front.
unfoldable pub get : List ℕ → ImageEmbeddingCache → Option ImageEmbedding × ImageEmbeddingCache
get url c = elim (find_entry url c.entries) [
  | none ↦ (none, c)
  | some e ↦ (some e.image, record c { entries = e ∷ erase_entry url c.entries })
]

-- The last entry, and the entries before it.
unfoldable pub back : Entry → List Entry → Entry
back e [] = e
back e (d ∷ entries) = back d entries

unfoldable pub pop_back : Entry → List Entry → List Entry
pop_back e [] = []
pop_back e (d ∷ entries) = e ∷ pop_back d entries

-- The entry that `put` replaces.
unfoldable pub drop_old : List ℕ → ImageEmbeddingCache → ImageEmbeddingCache
drop_old url c = elim (find_entry url c.entries) [
  | none ↦ c
  | some old ↦ record c { bytes = c.bytes - old.bytes; entries = erase_entry url c.entries }
]

-- The loop of `put` that makes room for `bytes`, with us much fuel us entries.
unfoldable pub make_room : ℕ → ℕ → ImageEmbeddingCache → ImageEmbeddingCache
make_room zero bytes c = c
make_room (suc fuel) bytes c = elim c.entries [
  | [] ↦ c
  | e ∷ entries ↦
      let rest =
        make_room fuel bytes
          (record c { bytes = c.bytes - (back e entries).bytes; entries = pop_back e entries }) in
      if ltb c.budget (c.bytes + bytes) then rest else c
]

-- `url.size() + image.values.size() * sizeof(uint16_t)`
abbrev pub weight : List ℕ → ImageEmbedding → ℕ
weight url image = length url + length image.values * 2

-- ImageEmbeddingCache::put
unfoldable pub put : List ℕ → ImageEmbedding → ImageEmbeddingCache → ImageEmbeddingCache
put url image c =
    let bytes = weight url image in
    let dropped = drop_old url c in
    let roomy = make_room (length dropped.entries) bytes dropped in
    if ltb c.budget bytes then c else record roomy {
      entries = record { url = url; image = image; bytes = bytes } ∷ roomy.entries;
      bytes = roomy.bytes + bytes;
    }
