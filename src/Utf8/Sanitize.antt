-- ===== src/Utf8/Sanitize.antt =====
-- `utf8_sanitize`: whole sequences stay, and U+FFFD stands for the rest.
use helios_glm53flash.Prelude.{
  ℕ, zero, suc, ◌-◌, ◌≤◌, ◌<◌, ◌≡◌, refl, sym, ap, ◌∙◌, inl, inr, List, [], ◌∷◌, ◌++◌, arith,
  length, take, drop, length-drop, ltb, ◌==◌, Bool-cases,
}
use helios_glm53flash.Utf8.{utf8_seq_len, continues, sanitize_from, utf8_sanitize, replacement}
use helios_glm53flash.Utf8.Chars.{
  Starts, Needs, Needs-len, len-Needs, Whole, found_Starts, Starts-found, Starts-tail,
}

-- The replacement is one character of three bytes.
replacement-Starts : (s : List ℕ) → Starts 0xef (0xbf ∷ 0xbd ∷ s) s
replacement-Starts s = record {
  tail = 0xbf ∷ 0xbd ∷ [];
  cut = refl;
  needs = Needs.three 0xef (omega arith) (omega arith);
  follows = ((omega arith, omega arith), ((omega arith, omega arith), tt));
}

replaced : (s : List ℕ) → Whole s → Whole (replacement ++ s)
replaced s w = Whole.character 0xef (0xbf ∷ 0xbd ∷ s) s (replacement-Starts s) w

-- The same first character before another rest.
with_rest : (b : ℕ) (s rest new : List ℕ) (h : Starts b s rest) → Starts b (h.tail ++ new) new
with_rest b s rest new h = record {
  tail = h.tail;
  cut = refl;
  needs = h.needs;
  follows = h.follows;
}

-- What mending makes of a string: whole sequences stay; a lead byte that asks for more bytes than there
-- are becomes U+FFFD with all that follows it; and U+FFFD stands for every other byte.
pub data Mended : List ℕ → List ℕ → Type 0 where
  nothing : Mended [] []
  kept :
      (b : ℕ) (s rest out : List ℕ) (h : Starts b s rest)
      → Mended rest out
      → Mended (b ∷ s) (b ∷ (h.tail ++ out))
  cut : (b n : ℕ) (s : List ℕ) → Needs b n → length (b ∷ s) < n → Mended (b ∷ s) replacement
  other :
      (b : ℕ) (s out : List ℕ)
      → ((rest : List ℕ) → ¬ Starts b s rest)
      → ((n : ℕ) → Needs b n → n ≤ length (b ∷ s))
      → Mended s out
      → Mended (b ∷ s) (replacement ++ out)

Mended-Whole : {s out : List ℕ} → Mended s out → Whole out
Mended-Whole Mended.nothing = Whole.nothing
Mended-Whole (Mended.kept b s rest out h m) =
    Whole.character b (h.tail ++ out) out (with_rest b s rest out h) (Mended-Whole m)
Mended-Whole (Mended.cut b n s need short) = replaced [] Whole.nothing
Mended-Whole (Mended.other b s out none_here enough m) = replaced out (Mended-Whole m)

sanitize_from-Mended : (fuel : ℕ) (s : List ℕ) → length s ≤ fuel → Mended s (sanitize_from fuel s)
unfolding sanitize_from
sanitize_from-Mended zero [] enough = Mended.nothing
sanitize_from-Mended zero (b ∷ s) enough = absurd (omega arith)
sanitize_from-Mended (suc fuel) [] enough = Mended.nothing
sanitize_from-Mended (suc fuel) (b ∷ s) enough =
    let skipped = sanitize_from-Mended fuel s (omega arith) in
    elim (Bool-cases (utf8_seq_len b == 0)) [
      | inl no_lead ↦ rw no_lead (
          Mended.other b s (sanitize_from fuel s)
            (λ rest h. ground (arith, (Starts-found b s rest h).0))
            (λ n need. ground (arith, Needs-len need)) skipped)
      | inr lead ↦
          let need = len-Needs b lead in
          elim (Bool-cases (ltb (length (b ∷ s)) (utf8_seq_len b))) [
            | inl short ↦ rw lead (rw short (Mended.cut b (utf8_seq_len b) s need (ground arith)))
            | inr long ↦ elim (Bool-cases (continues (utf8_seq_len b - 1) s)) [
              | inr broken ↦ rw lead (
                  rw long (
                    rw broken (
                      Mended.other b s (sanitize_from fuel s)
                        (λ rest h. ground (arith, (Starts-found b s rest h).2))
                        (λ n other_need. ground (arith, Needs-len other_need)) skipped)))
              | inl ok ↦
                  let h = found_Starts b s lead ok in
                  let left = drop (utf8_seq_len b - 1) s in
                  let m =
                    sanitize_from-Mended fuel left
                      (omega (arith, length-drop (utf8_seq_len b - 1) s)) in
                  rw lead (
                    rw long (
                      rw ok (
                        rw (Starts-tail b s left h)
                          (Mended.kept b s left (sanitize_from fuel left) h m))))
            ]
          ]
    ]

sanitize_from-same : (fuel : ℕ) (s : List ℕ) → Whole s → length s ≤ fuel → sanitize_from fuel s ≡ s
unfolding sanitize_from
sanitize_from-same zero _ Whole.nothing enough = refl
sanitize_from-same zero _ (Whole.character b s rest h w) enough = absurd (omega arith)
sanitize_from-same (suc fuel) _ Whole.nothing enough = refl
sanitize_from-same (suc fuel) _ (Whole.character b s rest h w) enough =
    let (lead, long, ok, whole, left) = Starts-found b s rest h in
    let shorter = length-drop (utf8_seq_len b - 1) s in
    let kept = sanitize_from-same fuel rest w (omega (arith, enough, shorter, ap length left)) in
    rw lead (
      rw long (
        rw ok (
          ap (◌∷◌ b) (
            ap (λ t. take (utf8_seq_len b - 1) s ++ t)
              (ap (sanitize_from fuel) left ∙ kept ∙ sym left)
            ∙ whole))))

-- Whatever the bytes, utf8_sanitize keeps the whole sequences, writes one U+FFFD for a lead byte that asks
-- for more bytes than are left, together with all that follows it, and one for every other byte that starts
-- no whole sequence; and its result consists of whole sequences. These are sequences by the ranges of their
-- bytes: overlong forms and surrogates are among them.
pub utf8_sanitize-Mended : (s : List ℕ) → Mended s (utf8_sanitize s) × Whole (utf8_sanitize s)
unfolding utf8_sanitize
utf8_sanitize-Mended s =
    let m = sanitize_from-Mended (length s) s (omega arith) in (m, Mended-Whole m)

-- A string of whole sequences, by the ranges of their bytes, is left as it is.
pub utf8_sanitize_same : (s : List ℕ) → Whole s → utf8_sanitize s ≡ s
unfolding utf8_sanitize
utf8_sanitize_same s w = sanitize_from-same (length s) s w (omega arith)
