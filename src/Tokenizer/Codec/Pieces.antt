-- ===== src/Tokenizer/Codec/Pieces.antt =====
-- The ids of a piece decode to the piece, for a vocabulary that names every byte.
use helios_glm53flash.Prelude.{
  All-append, ℕ, zero, suc, ◌≤◌, ◌≡◌, refl, sym, ap, ◌∙◌, subst, inl, inr, true, List, [], ◌∷◌,
  ◌++◌, none, some, map, arith, length, get_elem?, ltb, Bool-cases, Option-cases, All,
}
use mathlib.Core.List.{append_assoc, append-nil}
use helios_glm53flash.Tokenizer.Symbols.{b2s}
use helios_glm53flash.Tokenizer.Vocab.{Tokenizer, find_in}
use helios_glm53flash.Tokenizer.Merge.{
  merge_at, merge_from, merged, byte_id, fallback_from, symbol_ids, all_ids, bpe_piece, pick_from,
  nothing_picked,
}
use helios_glm53flash.Tokenizer.Codec.{id_text, decode}
use helios_glm53flash.Tokenizer.Codec.Spelling.{
  length-spell, IsByte, spell, b2s_front, s2b-b2s, decode_token-spell,
}

-- The id of a word of the vocabulary leads back to it, and it is no added token.
abbrev pub Named : Tokenizer → List ℕ → ℕ → Type 0
Named tk word id = (get_elem? tk.id_to_tok id ≡ some word) × (find_in tk.added_map word ≡ none)

-- The id of an added token leads back to it.
abbrev pub AddedWord : Tokenizer → List ℕ × ℕ → Type 0
AddedWord tk (c, id) =
    (get_elem? tk.id_to_tok id ≡ some c) × ((other : ℕ) × (find_in tk.added_map c ≡ some other))

-- The vocabulary names every byte, its ids lead back to its words and to the added tokens, and no word is
-- an added token.
pub record Coherent (tk : Tokenizer) : Type 0 where
  pub bytes : (b : ℕ) → IsByte b → (id : ℕ) × (find_in tk.tok_to_id (b2s b) ≡ some id)
  pub words : (word : List ℕ) (id : ℕ) → find_in tk.tok_to_id word ≡ some id → Named tk word id
  pub added_words : All (AddedWord tk) tk.added

-- A list of symbols, each the spelling of some bytes, that spell the string together.
data Spelled : List ℕ → List (List ℕ) → Type 0 where
  nil : Spelled [] []
  cons :
      (bs p : List ℕ) (syms : List (List ℕ))
      → All IsByte bs
      → Spelled p syms
      → Spelled (bs ++ p) (spell bs ∷ syms)

spell-append : (us vs : List ℕ) → spell (us ++ vs) ≡ spell us ++ spell vs
spell-append [] vs = refl
spell-append (a ∷ us) vs =
    rw (spell-append us vs) (sym (append_assoc (b2s a) (spell us) (spell vs)))

joined-Spelled :
    (us vs p : List ℕ) (syms : List (List ℕ))
    → All IsByte us
    → All IsByte vs
    → Spelled p syms
    → Spelled (us ++ (vs ++ p)) ((spell us ++ spell vs) ∷ syms)
joined-Spelled us vs p syms hu hv h =
    rw (sym (spell-append us vs), sym (append_assoc us vs p))
      (Spelled.cons (us ++ vs) p syms (All-append IsByte us vs hu hv) h)

merge_at-Spelled :
    (i : ℕ) (p : List ℕ) (syms : List (List ℕ)) → Spelled p syms → Spelled p (merge_at i syms)
unfolding merge_at
merge_at-Spelled i _ _ Spelled.nil = Spelled.nil
merge_at-Spelled zero _ _ (Spelled.cons bs _ _ h Spelled.nil) = Spelled.cons bs [] [] h Spelled.nil
merge_at-Spelled zero _ _ (Spelled.cons bs _ _ h (Spelled.cons cs p syms k rest)) =
    joined-Spelled bs cs p syms h k rest
merge_at-Spelled (suc i) _ _ (Spelled.cons bs p syms h rest) =
    Spelled.cons bs p (merge_at i syms) h (merge_at-Spelled i p syms rest)

symbols-Spelled : (p : List ℕ) → All IsByte p → Spelled p (map b2s p)
symbols-Spelled [] h = Spelled.nil
symbols-Spelled (b ∷ p) (hb, hs) =
    subst (λ sy. Spelled (b ∷ p) (sy ∷ map b2s p)) (append-nil (b2s b))
      (Spelled.cons (b ∷ []) p (map b2s p) (hb, tt) (symbols-Spelled p hs))

module _ (tk : Tokenizer) where
  merge_from-Spelled :
      (fuel : ℕ) (p : List ℕ) (syms : List (List ℕ))
      → Spelled p syms
      → Spelled p (merge_from tk fuel syms)
  unfolding merge_from
  merge_from-Spelled zero p syms h = h
  merge_from-Spelled (suc fuel) p syms h = elim (Bool-cases (ltb 1 (length syms))) [
    | inr short ↦ rw (merge_from, short) h
    | inl long ↦ elim (Option-cases (pick_from tk 0 syms nothing_picked).best) [
      | inl none_left ↦ rw (merge_from, long, none_left) h
      | inr (i, found) ↦
          rw (merge_from, long, found)
            (merge_from-Spelled fuel p (merge_at i syms) (merge_at-Spelled i p syms h))
    ]
  ]

  merged-Spelled : (p : List ℕ) → All IsByte p → Spelled p (merged tk p)
  unfolding merged
  merged-Spelled p h = merge_from-Spelled (length p) p (map b2s p) (symbols-Spelled p h)

  pub decode-append :
      (xs ys : List ℕ) → decode tk true (xs ++ ys) ≡ decode tk true xs ++ decode tk true ys
  unfolding decode
  decode-append [] ys = refl
  decode-append (x ∷ xs) ys =
      rw (decode-append xs ys)
        (sym (append_assoc (id_text tk true x) (decode tk true xs) (decode tk true ys)))

module _ (tk : Tokenizer) (coherent : Coherent tk) where
  -- The text of the id of a word.
  word_text :
      (bs : List ℕ) (id : ℕ)
      → All IsByte bs
      → find_in tk.tok_to_id (spell bs) ≡ some id
      → id_text tk true id ≡ bs
  unfolding id_text
  word_text bs id h found =
      let (name, plain) = coherent.words (spell bs) id found in
      rw (id_text, name, plain) (decode_token-spell bs (length (spell bs)) h (length-spell bs h))

  byte_id-text : (b : ℕ) → IsByte b → decode tk true (byte_id tk (b2s b)) ≡ b ∷ []
  unfolding decode byte_id
  byte_id-text b h =
      let (id, known) = coherent.bytes b h in
      let alone = append-nil (b2s b) in
      rw (byte_id, s2b-b2s b h, known, append-nil (id_text tk true id))
        (word_text (b ∷ []) id (h, tt) (rw alone known))

  fallback_from-text :
      (bs : List ℕ) (fuel : ℕ)
      → All IsByte bs
      → length bs ≤ fuel
      → decode tk true (fallback_from tk fuel (spell bs)) ≡ bs
  unfolding fallback_from
  fallback_from-text [] zero h enough = unfold decode in refl
  fallback_from-text [] (suc fuel) h enough = unfold decode in refl
  fallback_from-text (b ∷ bs) zero h enough = absurd (omega arith)
  fallback_from-text (b ∷ bs) (suc fuel) (hb, hs) enough =
      let (c, s, e, front) = b2s_front b (spell bs) hb in
      rw
        (
          e,
          fallback_from,
          front.0,
          front.1,
          decode-append tk (byte_id tk (b2s b)) (fallback_from tk fuel (spell bs)),
          byte_id-text b hb,
        )
        (ap (◌∷◌ b) (fallback_from-text bs fuel hs (omega arith)))

  symbol_ids-text : (bs : List ℕ) → All IsByte bs → decode tk true (symbol_ids tk (spell bs)) ≡ bs
  unfolding symbol_ids
  symbol_ids-text bs h = elim (Option-cases (find_in tk.tok_to_id (spell bs))) [
    | inl unknown ↦
        rw (symbol_ids, unknown) (fallback_from-text bs (length (spell bs)) h (length-spell bs h))
    | inr (id, known) ↦
        rw (symbol_ids, known)
          (unfold decode in (append-nil (id_text tk true id) ∙ word_text bs id h known))
  ]

  all_ids-text :
      (p : List ℕ) (syms : List (List ℕ)) → Spelled p syms → decode tk true (all_ids tk syms) ≡ p
  unfolding all_ids
  all_ids-text _ _ Spelled.nil = unfold decode in refl
  all_ids-text _ _ (Spelled.cons bs p syms h rest) = rw (
    decode-append tk (symbol_ids tk (spell bs)) (all_ids tk syms),
    symbol_ids-text bs h,
    all_ids-text p syms rest,
  )

  -- The ids of a piece decode to the piece.
  pub bpe_piece-text : (p : List ℕ) → All IsByte p → decode tk true (bpe_piece tk p) ≡ p
  unfolding bpe_piece
  bpe_piece-text p h = all_ids-text p (merged tk p) (merged-Spelled tk p h)
