-- ===== src/Images/Put.antt =====
-- ImageEmbeddingCache::put and get: the cache stays well formed, an image that fits is found again, and
-- what is evicted is what was used least recently.
use helios_glm53flash.Prelude.{
  same_words_refl, ℕ, zero, suc, ◌+◌, ◌-◌, ◌≤◌, ◌<◌, ◌≡◌, refl, sym, ap, ◌∙◌, inl, inr, true, false,
  List, [], ◌∷◌, none, some, arith, length, take, take-take, take_of_length-le, length-take, ltb,
  leb, Bool-cases, Option-cases,
}
use helios_glm53flash.Images.{
  ImageEmbedding, Entry, ImageEmbeddingCache, find_entry, erase_entry, get, back, pop_back,
  drop_old, make_room, weight, put,
}
use helios_glm53flash.Images.Cache.{
  total, Wf, total-erase_entry, total-pop_back, pop_back-take, erase_entry_self, Distinct-take,
  Distinct-erase_entry, Weighed-take, Weighed-erase_entry, find_entry-Weighed, find_entry-take,
}

module _ {ℓ} {A : Type ℓ} where
  taken_twice : (k n : ℕ) (xs : List A) → (m : ℕ) × (take k (take n xs) ≡ take m xs)
  taken_twice k n xs = elim (Bool-cases (leb k n)) [
    | inl small ↦ (k, take-take k n xs (ground arith))
    | inr large ↦ (n, take_of_length-le k (take n xs) (ground (arith, length-take n xs)))
  ]

-- Room was made for `bytes`: the most recently used entries are kept.
pub record Room (bytes : ℕ) (c r : ImageEmbeddingCache) : Type 0 where
  pub kept : ℕ
  pub survivors : r.entries ≡ take kept c.entries
  pub counted : r.bytes ≡ total r.entries
  pub roomy : r.bytes + bytes ≤ c.budget
  pub same_budget : r.budget ≡ c.budget

done_Room :
    (bytes : ℕ) (c : ImageEmbeddingCache)
    → c.bytes ≡ total c.entries
    → c.bytes + bytes ≤ c.budget
    → Room bytes c c
done_Room bytes c counted fits = record {
  kept = length c.entries;
  survivors = sym (take_of_length-le (length c.entries) c.entries (omega arith));
  counted = counted;
  roomy = fits;
  same_budget = refl;
}

abbrev cache_of : List Entry → ℕ → ℕ → ImageEmbeddingCache
cache_of entries b n = record { entries = entries; budget = b; bytes = n }

cache_of-Room :
    (fuel bytes b n : ℕ) (entries : List Entry)
    → length entries ≤ fuel
    → bytes ≤ b
    → n ≡ total entries
    → Room bytes (cache_of entries b n) (make_room fuel bytes (cache_of entries b n))
unfolding make_room
cache_of-Room zero bytes b n [] enough fits counted =
    done_Room bytes (cache_of [] b n) counted (omega (arith, counted, fits))
cache_of-Room zero bytes b n (e ∷ entries) enough fits counted = absurd (omega arith)
cache_of-Room (suc fuel) bytes b n [] enough fits counted =
    done_Room bytes (cache_of [] b n) counted (omega (arith, counted, fits))
cache_of-Room (suc fuel) bytes b n (e ∷ entries) enough fits counted =
    elim (Bool-cases (ltb b (n + bytes))) [
      | inr room ↦ rw room (done_Room bytes (cache_of (e ∷ entries) b n) counted (ground arith))
      | inl tight ↦
          let sum = total-pop_back e entries in
          let short = pop_back-take e entries in
          let size = length-take (length entries) (e ∷ entries) in
          let r =
            cache_of-Room fuel bytes b (n - (back e entries).bytes) (pop_back e entries)
              (omega (arith, enough, ap length short, size)) fits (omega (arith, counted, sum)) in
          let (m, same) = taken_twice r.kept (length entries) (e ∷ entries) in
          rw tight (record {
            kept = m;
            survivors = r.survivors ∙ ap (take r.kept) short ∙ same;
            counted = r.counted;
            roomy = r.roomy;
            same_budget = r.same_budget;
          })
    ]

make_room-Room :
    (bytes : ℕ) (c : ImageEmbeddingCache)
    → bytes ≤ c.budget
    → c.bytes ≡ total c.entries
    → Room bytes c (make_room (length c.entries) bytes c)
make_room-Room bytes c fits counted =
    cache_of-Room (length c.entries) bytes c.budget c.bytes c.entries (omega arith) fits counted

-- After the old entry of the URL is dropped the cache is well formed, and does not know the URL.
pub record Dropped (url : List ℕ) (c d : ImageEmbeddingCache) : Type 0 where
  pub wf : Wf d
  pub gone : find_entry url d.entries ≡ none
  pub left : d.entries ≡ erase_entry url c.entries
  pub same_budget : d.budget ≡ c.budget

erase_entry-none :
    (url : List ℕ) (entries : List Entry)
    → find_entry url entries ≡ none
    → erase_entry url entries ≡ entries
unfolding find_entry erase_entry
erase_entry-none url [] h = refl
erase_entry-none url (e ∷ entries) h = ground (arith, erase_entry-none url entries)

drop_old-Dropped : (url : List ℕ) (c : ImageEmbeddingCache) → Wf c → Dropped url c (drop_old url c)
unfolding drop_old
drop_old-Dropped url c h = elim (Option-cases (find_entry url c.entries)) [
  | inl e ↦
      rw (e, drop_old)
        (record {
          wf = h;
          gone = e;
          left = sym (erase_entry-none url c.entries e);
          same_budget = refl;
        })
  | inr (old, e) ↦
      let sum = total-erase_entry url c.entries old e in
      rw (e, drop_old)
        (record {
          wf = record {
            counted = omega (arith, h.counted, sum);
            within = omega (arith, h.within);
            weighed = Weighed-erase_entry url c.entries h.weighed;
            distinct = Distinct-erase_entry url c.entries h.distinct;
          };
          gone = erase_entry_self url c.entries h.distinct;
          left = refl;
          same_budget = refl;
        })
]

module _ (url : List ℕ) (image : ImageEmbedding) (c : ImageEmbeddingCache) (h : Wf c)
    (fits : weight url image ≤ c.budget) where
  abbrev dropped : ImageEmbeddingCache
  dropped = drop_old url c

  abbrev roomy_cache : ImageEmbeddingCache
  roomy_cache = make_room (length dropped.entries) (weight url image) dropped

  abbrev new_entry : Entry
  new_entry = record { url = url; image = image; bytes = weight url image }

  put_result : put url image c ≡ record roomy_cache {
    entries = new_entry ∷ roomy_cache.entries;
    bytes = roomy_cache.bytes + weight url image;
  }
  unfolding put
  put_result = let small : ltb c.budget (weight url image) ≡ false = ground arith in rw small refl

  -- In a well-formed cache an image that fits the budget is stored before the most recently used of the other entries, and the cache
  -- stays well formed.
  pub put-Wf :
      Wf (put url image c)
      × ((k : ℕ) × ((put url image c).entries ≡ new_entry ∷ take k (erase_entry url c.entries)))
  put-Wf =
      let d = drop_old-Dropped url c h in
      let r =
        make_room-Room (weight url image) dropped (omega (arith, fits, d.same_budget))
          d.wf.counted in
      rw put_result (
        record {
          counted = omega (arith, r.counted);
          within = omega (arith, r.roomy, r.same_budget);
          weighed = (refl, rw r.survivors (Weighed-take r.kept dropped.entries d.wf.weighed));
          distinct = (
            rw r.survivors (find_entry-take url r.kept dropped.entries d.gone),
            rw r.survivors (Distinct-take r.kept dropped.entries d.wf.distinct),
          );
        },
        (r.kept, ap (◌∷◌ new_entry) (r.survivors ∙ ap (take r.kept) d.left)),
      )

  -- In a well-formed cache an image that fits the budget is found again after it is stored.
  pub get-put : (get url (put url image c)).0 ≡ some image
  unfolding get find_entry
  get-put =
      let found : find_entry url (put url image c).entries ≡ some new_entry =
        rw put_result (rw (same_words_refl url) refl) in
      rw (found, get) refl

-- An image wider than the budget is not stored.
pub put_too_big :
    (url : List ℕ) (image : ImageEmbedding) (c : ImageEmbeddingCache)
    → c.budget < weight url image
    → put url image c ≡ c
unfolding put
put_too_big url image c big =
    let wide : ltb c.budget (weight url image) ≡ true = ground arith in rw wide refl

-- A lookup in a well-formed cache keeps it well formed and its bytes and budget as they were; what it finds moves to
-- the front.
pub get-Wf :
    (url : List ℕ) (c : ImageEmbeddingCache)
    → Wf c
    → let t = (get url c).1 in
      Wf t
      × (t.bytes ≡ c.bytes)
      × (t.budget ≡ c.budget)
      × ((e : Entry)
          → find_entry url c.entries ≡ some e
          → t.entries ≡ e ∷ erase_entry url c.entries)
unfolding get
get-Wf url c h = elim (Option-cases (find_entry url c.entries)) [
  | inl none_there ↦ rw (none_there, get) (h, refl, refl, λ e f. absurd (cc))
  | inr (e, there) ↦
      let sum = total-erase_entry url c.entries e there in
      let (right, same) = find_entry-Weighed url c.entries e h.weighed there in
      rw (there, get)
        (
          record {
            counted = omega (arith, h.counted, sum);
            within = h.within;
            weighed = (right, Weighed-erase_entry url c.entries h.weighed);
            distinct = (
              ap (λ u. find_entry u (erase_entry url c.entries)) same
                  ∙ erase_entry_self url c.entries h.distinct,
              Distinct-erase_entry url c.entries h.distinct,
            );
          },
          refl,
          refl,
          λ x f. ground arith,
        )
]
