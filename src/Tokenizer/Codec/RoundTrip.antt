-- ===== src/Tokenizer/Codec/RoundTrip.antt =====
-- `decode` gives back the text that `encode` was given, for a vocabulary that names every byte.
use helios_glm53flash.Prelude.{
  take-append-drop_range, All-drop, All-take, drop_of_length-le, All-append, ℕ, zero, suc, ◌-◌, ◌≤◌,
  ◌≡◌, refl, sym, ap, ◌∙◌, inl, inr, true, List, [], ◌∷◌, ◌++◌, Option, none, some, arith, length,
  take, drop, length-drop, take-append-drop, leb, Bool-cases, Option-cases, same_words-eq, All,
}
use mathlib.Core.List.{append_assoc, append-nil}
use helios_glm53flash.Tokenizer.Classes.{Ranges}
use helios_glm53flash.Tokenizer.Split.{pretokenize}
use helios_glm53flash.Tokenizer.Split.Partition.{Tiles, pretokenize-Tiles}
use helios_glm53flash.Tokenizer.Vocab.{Table, Tokenizer}
use helios_glm53flash.Tokenizer.Merge.{bpe_piece}
use helios_glm53flash.Tokenizer.Codec.{
  stands_at, match_added, range_ids, flush, encode_from, encode, id_text, decode,
}
use helios_glm53flash.Tokenizer.Codec.Pieces.{Coherent, AddedWord, decode-append, bpe_piece-text}
use helios_glm53flash.Tokenizer.Codec.Spelling.{IsByte}

module _ (tk : Tokenizer) (coherent : Coherent tk) where
  range_ids-text :
      (t : Ranges) (seg : List ℕ) (i : ℕ) (ranges : List (ℕ × ℕ))
      → All IsByte seg
      → Tiles i (length seg) ranges
      → decode tk true (range_ids t tk seg ranges) ≡ drop i seg
  unfolding range_ids
  range_ids-text t seg i [] h end = unfold decode in sym (drop_of_length-le i seg (omega arith))
  range_ids-text t seg i ((a, b) ∷ ranges) h (start, order, tiles) =
      let piece = take (b - a) (drop a seg) in
      rw
        (
          decode-append tk (bpe_piece tk piece) (range_ids t tk seg ranges),
          bpe_piece-text tk coherent piece
              (All-take IsByte (b - a) (drop a seg) (All-drop IsByte a seg h)),
          range_ids-text t seg b ranges h tiles,
          sym start,
        )
        (take-append-drop_range a b seg (omega arith))

  flush-text :
      (t : Ranges) (seg out : List ℕ)
      → All IsByte seg
      → decode tk true (flush t tk seg out) ≡ decode tk true out ++ seg
  unfolding flush
  flush-text t [] out h = sym (append-nil (decode tk true out))
  flush-text t (c ∷ seg) out h = rw (
    decode-append tk out (range_ids t tk (c ∷ seg) (pretokenize t (c ∷ seg))),
    range_ids-text t (c ∷ seg) 0 (pretokenize t (c ∷ seg)) h (pretokenize-Tiles t (c ∷ seg)),
  )

  -- What the scan for added tokens finds stands at the position, and its id leads back to it.
  abbrev Stands : List ℕ → ℕ → ℕ → Type 0
  Stands s id n = (1 ≤ n) × (id_text tk true id ≡ take n s)

  added_text : (c : List ℕ) (id : ℕ) → AddedWord tk (c, id) → id_text tk true id ≡ c
  unfolding id_text
  added_text c id (name, (other, known)) = rw (id_text, name, known) refl

  same_words-take : (c s : List ℕ) → stands_at c s ≡ true → c ≡ take (length c) s
  unfolding stands_at
  same_words-take c s hit = sym (same_words-eq (take (length c) s) c (ground arith))

  newest_text :
      (c s : List ℕ) (id id' : ℕ)
      → AddedWord tk (c, id)
      → stands_at c s ≡ true
      → some id ≡ some id'
      → id_text tk true id' ≡ take (length c) s
  newest_text c s id id' h hit same =
      let e : id ≡ id' = cc in rw (sym e) (added_text c id h ∙ same_words-take c s hit)

  match_added-Stands :
      (added : Table) (s : List ℕ) (matched : Option ℕ) (mlen id : ℕ)
      → All (AddedWord tk) added
      → ((id' : ℕ) → matched ≡ some id' → Stands s id' mlen)
      → (match_added added s matched mlen).0 ≡ some id
      → Stands s id (match_added added s matched mlen).1
  unfolding match_added stands_at
  match_added-Stands [] s matched mlen id h before = before id
  match_added-Stands ((c, id') ∷ added) s matched mlen id (h, hs) before =
      elim (Bool-cases (leb (length c) mlen)) [
        | inl short ↦ rw short (before id)
        | inr long ↦ elim (Bool-cases (stands_at c s)) [
          | inr other ↦ rw (long, other) (match_added-Stands added s matched mlen id hs before)
          | inl hit ↦
              rw (long, hit)
                (match_added-Stands added s (some id') (length c) id hs
                  (λ id'' same. (ground arith, newest_text c s id' id'' h hit same)))
        ]
      ]

  one_text : (id : ℕ) → decode tk true (id ∷ []) ≡ id_text tk true id
  unfolding decode
  one_text id = append-nil (id_text tk true id)

  encode_from-text :
      (t : Ranges) (fuel : ℕ) (s seg out : List ℕ)
      → All IsByte s
      → All IsByte seg
      → length s ≤ fuel
      → decode tk true (encode_from t tk fuel s seg out) ≡ decode tk true out ++ (seg ++ s)
  unfolding encode_from
  encode_from-text t zero [] seg out h k enough = rw append-nil (flush-text t seg out k)
  encode_from-text t zero (c ∷ s) seg out h k enough = absurd (omega arith)
  encode_from-text t (suc fuel) [] seg out h k enough = rw append-nil (flush-text t seg out k)
  encode_from-text t (suc fuel) (c ∷ s) seg out (hc, hs) k enough =
      elim (Option-cases (match_added tk.added (c ∷ s) none 0).0) [
        | inl nothing ↦
            rw (encode_from, nothing)
              (encode_from-text t fuel s (seg ++ (c ∷ [])) out hs
                  (All-append IsByte seg (c ∷ []) k (hc, tt)) (omega arith)
                ∙ ap (◌++◌ (decode tk true out)) (append_assoc seg (c ∷ []) s))
        | inr (id, found) ↦
            let n = (match_added tk.added (c ∷ s) none 0).1 in
            let (pos, text) =
              match_added-Stands tk.added (c ∷ s) none 0 id coherent.added_words
                (λ id' e. absurd (cc e)) found in
            let rest = drop n (c ∷ s) in
            let rest_bytes = All-drop IsByte n (c ∷ s) (hc, hs) in
            let before = flush t tk seg out in
            let size = length-drop n (c ∷ s) in
            rw (encode_from, found)
              (encode_from-text t fuel rest [] (before ++ (id ∷ [])) rest_bytes tt (omega arith)
                ∙ ap (λ u. u ++ rest) (decode-append tk before (id ∷ []))
                ∙ ap (λ u. (u ++ decode tk true (id ∷ [])) ++ rest) (flush-text t seg out k)
                ∙ ap (λ u. ((decode tk true out ++ seg) ++ u) ++ rest) (one_text id ∙ text)
                ∙ append_assoc (decode tk true out ++ seg) (take n (c ∷ s)) rest
                ∙ ap (◌++◌ (decode tk true out ++ seg)) (take-append-drop n (c ∷ s))
                ∙ append_assoc (decode tk true out) seg (c ∷ s))
      ]

  -- For a coherent vocabulary, whatever the tables of letters and numbers: decoding the ids of a text with the
  -- special tokens kept gives the text.
  pub decode-encode :
      (t : Ranges) (text : List ℕ) → All IsByte text → decode tk true (encode t tk text) ≡ text
  unfolding encode decode
  decode-encode t text h = encode_from-text t (length text) text [] [] h tt (omega arith)
