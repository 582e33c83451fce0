-- ===== src/Images/Limit.antt =====
-- The reuse limit of two lists of images is the furthest position below which they agree.
use helios_glm53flash.Prelude.{
  same_words, same_words-eq, same_words_refl, ℕ, zero, suc, ◌≤◌, ◌<◌, ◌≡◌, inl, inr, refl, sym, ap,
  min, Bool, true, false, List, [], ◌∷◌, some, arith, get_elem?, Bool-cases, if◌then◌else◌,
}
use helios_glm53flash.Images.{
  ImageEmbedding, same_image, has_image, int_max, scan, image_prefix_limit,
}

same_image-eq : (a b : ImageEmbedding) → same_image a b ≡ true → a ≡ b
same_image-eq a b e =
    let ok : same_words a.values b.values ≡ true = ground arith in
    let same = same_words-eq a.values b.values ok in ground (arith, same)

same_image_refl : (a : ImageEmbedding) → same_image a a ≡ true
same_image_refl a = ground (arith, same_words_refl a.values)

-- The image is one of the list.
abbrev pub Among : ImageEmbedding → List ImageEmbedding → Type 0
Among image images = (i : ℕ) × (get_elem? images i ≡ some image)

has_image-Among :
    (image : ImageEmbedding) (images : List ImageEmbedding)
    → has_image image images ≡ true
    → Among image images
unfolding has_image
has_image-Among image [] e = absurd (cc)
has_image-Among image (other ∷ images) e = elim (Bool-cases (same_image image other)) [
  | inl same ↦ (zero, ap some (sym (same_image-eq image other same)))
  | inr differ ↦ let (i, at) = has_image-Among image images (rw differ at e) in (suc i, at)
]

Among-has_image :
    (image : ImageEmbedding) (images : List ImageEmbedding) (i : ℕ)
    → get_elem? images i ≡ some image
    → has_image image images ≡ true
unfolding has_image
Among-has_image image [] i e = absurd (cc)
Among-has_image image (other ∷ images) zero e =
    let one : other ≡ image = ground arith in
    let same : same_image image other ≡ true = rw one (same_image_refl image) in rw same refl
Among-has_image image (other ∷ images) (suc i) e =
    let rest = Among-has_image image images i e in
    elim (Bool-cases (same_image image other)) [
      | inl same ↦ rw same refl
      | inr differ ↦ rw differ rest
    ]

scan-le : (limit : ℕ) (a b : List ImageEmbedding) → scan limit a b ≤ limit
unfolding scan
scan-le limit [] b = omega arith
scan-le limit (image ∷ a) b = elim (Bool-cases (has_image image b)) [
  | inl there ↦ rw there (scan-le limit a b)
  | inr missing ↦ rw missing (omega (arith, scan-le (min limit image.start) a b))
]

scan-covers :
    (limit : ℕ) (a b : List ImageEmbedding) (image : ImageEmbedding) (i : ℕ)
    → get_elem? a i ≡ some image
    → image.start < scan limit a b
    → has_image image b ≡ true
unfolding scan
scan-covers limit [] b image i e below = absurd (cc)
scan-covers limit (other ∷ a) b image zero e below = elim (Bool-cases (has_image image b)) [
  | inl there ↦ there
  | inr missing ↦
      let one : other ≡ image = ground arith in
      let gone : has_image other b ≡ false = rw one missing in
      let low : image.start < scan (min limit other.start) a b = rw gone at below in
      absurd (
        omega (
          arith,
          low,
          scan-le (min limit other.start) a b,
          ap (λ (x : ImageEmbedding). x.start) one,
        ))
]
scan-covers limit (other ∷ a) b image (suc i) e below =
    scan-covers (if has_image other b then limit else min limit other.start) a b image i e below

scan-greatest :
    (limit n : ℕ) (a b : List ImageEmbedding)
    → n ≤ limit
    → ((image : ImageEmbedding) → Among image a → image.start < n → has_image image b ≡ true)
    → n ≤ scan limit a b
unfolding scan
scan-greatest limit n [] b fits all = fits
scan-greatest limit n (image ∷ a) b fits all = elim (Bool-cases (has_image image b)) [
  | inl there ↦ rw there (scan-greatest limit n a b fits (λ x (i, e). all x (suc i, e)))
  | inr missing ↦
      let late : n ≤ image.start = late_start (all image (zero, refl)) missing in
      rw missing (
        scan-greatest (min limit image.start) n a b (omega (arith, late))
          (λ x (i, e). all x (suc i, e)))
]
  where
    late_start : {n s : ℕ} {b : Bool} → (s < n → b ≡ true) → b ≡ false → n ≤ s
    late_start h e = ground arith

-- Below `n` the two lists have the same images.
abbrev pub AgreeBelow : ℕ → List ImageEmbedding → List ImageEmbedding → Type 0
AgreeBelow n previous current =
    ((image : ImageEmbedding) → Among image previous → image.start < n → Among image current)
    × ((image : ImageEmbedding) → Among image current → image.start < n → Among image previous)

-- The limit is the greatest `int` below which both lists have the same images.
pub image_prefix_limit-AgreeBelow :
    (previous current : List ImageEmbedding)
    → let limit = image_prefix_limit previous current in
      (limit ≤ int_max)
      × AgreeBelow limit previous current
      × ((n : ℕ) → n ≤ int_max → AgreeBelow n previous current → n ≤ limit)
unfolding image_prefix_limit
image_prefix_limit-AgreeBelow previous current =
    let first = scan int_max previous current in
    let below = scan-le first current previous in
    (
      omega (arith, below, scan-le int_max previous current),
      (
        λ image (i, e) early.
            has_image-Among image current
              (scan-covers int_max previous current image i e (omega (arith, early, below))),
        λ image (i, e) early.
            has_image-Among image previous (scan-covers first current previous image i e early),
      ),
      λ n fits (forth, back).
          scan-greatest first n current previous
            (scan-greatest int_max n previous current fits (λ image at early.
              let (j, there) = forth image at early in Among-has_image image current j there))
            (λ image at early.
              let (j, there) = back image at early in Among-has_image image previous j there),
    )
