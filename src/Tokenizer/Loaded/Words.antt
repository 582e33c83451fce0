-- ===== src/Tokenizer/Loaded/Words.antt =====
-- The loops of `load` over the vocabulary: what a word and an id lead to.
use helios_glm53flash.Prelude.{
  ℕ, zero, suc, ◌≤◌, ◌<◌, ◌≡◌, ◌≢◌, ◌⊎◌, refl, sym, ◌∙◌, inl, inr, max, List, [], ◌∷◌, some, arith,
  length, get_elem?, set, All, length-set, get_elem?-set_self, get_elem?-set_ne,
}
use helios_glm53flash.Tokenizer.Vocab.{Table, find_in, Tokenizer, max_id, fill_vocab}
use helios_glm53flash.Tokenizer.Loaded.Entries.{In, Distinct, find_in-cases, write_known}

le-max_id : (m : ℕ) (vocab : Table) → m ≤ max_id m vocab
unfolding max_id
le-max_id m [] = omega arith
le-max_id m ((k, id) ∷ vocab) = omega (arith, le-max_id (max m id) vocab)

pub max_id_lem :
    (m : ℕ) (vocab : Table) (key : List ℕ) (id : ℕ) → In key id vocab → id ≤ max_id m vocab
unfolding max_id
max_id_lem m [] key id (j, at) = absurd (cc at)
max_id_lem m ((k, v) ∷ vocab) key id (zero, at) =
    let e : v ≡ id = cc in omega (arith, le-max_id (max m v) vocab)
max_id_lem m ((k, v) ∷ vocab) key id (suc j, at) = max_id_lem (max m v) vocab key id (j, at)

-- What a round of the loop over the vocabulary leaves.
abbrev with_word : List ℕ → ℕ → Tokenizer → Tokenizer
with_word k v tk = record tk { tok_to_id = (k, v) ∷ tk.tok_to_id; id_to_tok = set tk.id_to_tok v k }

-- Names at ids that the vocabulary does not use stay.
fill_vocab-other :
    (vocab : Table) (tk : Tokenizer) (id : ℕ)
    → All (λ (k, i). i ≢ id) vocab
    → get_elem? (fill_vocab vocab tk).id_to_tok id ≡ get_elem? tk.id_to_tok id
unfolding fill_vocab
fill_vocab-other [] tk id h = refl
fill_vocab-other ((k, v) ∷ vocab) tk id (h, hs) =
    fill_vocab-other vocab (with_word k v tk) id hs ∙ get_elem?-set_ne tk.id_to_tok v id k h

pub fill_vocab-name :
    (vocab : Table) (tk : Tokenizer) (key : List ℕ) (id : ℕ)
    → Distinct vocab
    → id < length tk.id_to_tok
    → In key id vocab
    → get_elem? (fill_vocab vocab tk).id_to_tok id ≡ some key
unfolding fill_vocab
fill_vocab-name [] tk key id h fits (j, at) = absurd (cc at)
fill_vocab-name ((k, v) ∷ vocab) tk key id (h, hs) fits (zero, at) =
    let e : v ≡ id = cc in
    let ek : k ≡ key = cc in
    rw (sym e, sym ek)
      (fill_vocab-other vocab (with_word k v tk) v h
        ∙ get_elem?-set_self tk.id_to_tok v k (omega arith))
fill_vocab-name ((k, v) ∷ vocab) tk key id (h, hs) fits (suc j, at) =
    fill_vocab-name vocab (with_word k v tk) key id hs (omega (arith, length-set tk.id_to_tok v k))
      (j, at)

-- What the vocabulary finds was in it.
pub fill_vocab-found :
    (vocab : Table) (tk : Tokenizer) (key : List ℕ) (id : ℕ)
    → find_in (fill_vocab vocab tk).tok_to_id key ≡ some id
    → In key id vocab ⊎ (find_in tk.tok_to_id key ≡ some id)
unfolding fill_vocab
fill_vocab-found [] tk key id e = inr e
fill_vocab-found ((k, v) ∷ vocab) tk key id e =
    elim (fill_vocab-found vocab (with_word k v tk) key id e) [
      | inl (j, at) ↦ inl (suc j, at)
      | inr found ↦ elim (find_in-cases k v tk.tok_to_id key id found) [
        | inl (same, number) ↦ inl (0, cc (same, number))
        | inr earlier ↦ inr earlier
      ]
    ]

-- A word stays in the vocabulary.
pub kept_found :
    (vocab : Table) (tk : Tokenizer) (key : List ℕ)
    → ((v : ℕ) × (find_in tk.tok_to_id key ≡ some v)) ⊎ ((id : ℕ) × In key id vocab)
    → (v : ℕ) × (find_in (fill_vocab vocab tk).tok_to_id key ≡ some v)
unfolding fill_vocab
kept_found [] tk key (inl found) = found
kept_found [] tk key (inr (id, (j, at))) = absurd (cc at)
kept_found ((k, v) ∷ vocab) tk key h =
    kept_found vocab (with_word k v tk) key (write_known k v tk.tok_to_id vocab key h)

pub fill_vocab-length :
    (vocab : Table) (tk : Tokenizer) → length (fill_vocab vocab tk).id_to_tok ≡ length tk.id_to_tok
unfolding fill_vocab
fill_vocab-length [] tk = refl
fill_vocab-length ((k, v) ∷ vocab) tk =
    fill_vocab-length vocab (with_word k v tk) ∙ length-set tk.id_to_tok v k

pub fill_vocab-plain :
    (vocab : Table) (tk : Tokenizer)
    → ((fill_vocab vocab tk).added ≡ tk.added) × ((fill_vocab vocab tk).added_map ≡ tk.added_map)
unfolding fill_vocab
fill_vocab-plain [] tk = (refl, refl)
fill_vocab-plain ((k, v) ∷ vocab) tk = fill_vocab-plain vocab (with_word k v tk)
