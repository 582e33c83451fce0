-- ===== src/Tokenizer/Loaded.antt =====
-- A tokenizer that `load` reads from a file with distinct ids is coherent.
pub mod Entries
pub mod Words
pub mod Tokens
use helios_glm53flash.Prelude.{
  subst, codes, ℕ, zero, suc, ◌+◌, ◌-◌, ◌≤◌, ◌<◌, ◌≡◌, ◌≢◌, ◌⊎◌, refl, sym, ap, ◌∙◌, inl, inr, Bool,
  true, false, max, List, [], ◌∷◌, ◌++◌, Option, none, some, arith, length, get_elem?, set,
  replicate, leb, if◌then◌else◌, Bool-cases, Option-cases, All, same_words, same_words-eq,
  same_words_refl, length-set, get_elem?-set_self, get_elem?-set_ne, length-replicate,
  length-append,
}
use helios_glm53flash.Tokenizer.Symbols.{b2s}
use helios_glm53flash.Tokenizer.Vocab.{
  rank_merges, no_tokens, Table, find_in, Tokenizer, TokenizerJson, max_id, fill_vocab, add_tokens,
  load,
}
use helios_glm53flash.Tokenizer.Codec.Spelling.{IsByte}
use helios_glm53flash.Tokenizer.Codec.Pieces.{Named, AddedWord, Coherent}
use helios_glm53flash.Tokenizer.Loaded.Entries.{
  In, Distinct, found-In, find_in-cases, In-found, All-In,
}
use helios_glm53flash.Tokenizer.Loaded.Words.{
  max_id_lem, fill_vocab-name, fill_vocab-found, kept_found, fill_vocab-length, fill_vocab-plain,
}
use helios_glm53flash.Tokenizer.Loaded.Tokens.{
  add_tokens-kept, add_tokens-name, add_tokens-added, add_tokens-words, add_tokens-found,
  add_tokens-known,
}

-- What `load` relies on in the file: every byte is a word, ids are distinct, and no added token is a word.
pub record Sound (j : TokenizerJson) : Type 0 where
  pub bytes : (b : ℕ) → IsByte b → (id : ℕ) × In (b2s b) id j.vocab
  pub ids : Distinct j.vocab
  pub added_ids : Distinct j.added_tokens
  pub apart : (k l : List ℕ) (a b : ℕ) → In k a j.vocab → In l b j.added_tokens → (k ≢ l) × (a ≢ b)

-- std::sort only moves the entries.
abbrev pub Reorders : (Table → Table) → Type 0
Reorders sort = (m : Table) (key : List ℕ) (id : ℕ) → In key id (sort m) → In key id m

every_In :
    (P : List ℕ × ℕ → Type 0) (m : Table)
    → ((key : List ℕ) (id : ℕ) → In key id m → P (key, id))
    → All P m
every_In P [] h = tt
every_In P ((key, id) ∷ m) h = (h key id (0, refl), every_In P m (λ k i (j, at). h k i (suc j, at)))

-- The table of no entries finds nothing.
empty_found : {m : Table} (key : List ℕ) (id : ℕ) → m ≡ [] → ¬ (find_in m key ≡ some id)
unfolding find_in
empty_found key id e h =
    let none_found : find_in [] key ≡ some id = subst (λ m. find_in m key ≡ some id) e h in
    absurd (cc none_found)

module _ (sort : Table → Table) (j : TokenizerJson) (reorders : Reorders sort)
    (sound : Sound j) where
  abbrev start : Tokenizer
  start = no_tokens (max_id 0 j.vocab)

  abbrev named : Tokenizer
  named = fill_vocab j.vocab start

  abbrev ranked : Tokenizer
  ranked = record named { merge_rank = rank_merges 0 j.merges [] }

  abbrev full : Tokenizer
  full = add_tokens j.added_tokens ranked

  word_In : (word : List ℕ) (id : ℕ) → find_in full.tok_to_id word ≡ some id → In word id j.vocab
  word_In word id h =
      let found : find_in named.tok_to_id word ≡ some id =
        subst (λ m. find_in m word ≡ some id) (add_tokens-words j.added_tokens ranked) h in
      elim (fill_vocab-found j.vocab start word id found) [
        | inl there ↦ there
        | inr before ↦ absurd (empty_found word id refl before)
      ]

  added_In :
      (word : List ℕ) (id : ℕ) → find_in full.added_map word ≡ some id → In word id j.added_tokens
  added_In word id h = elim (add_tokens-found j.added_tokens ranked word id h) [
    | inl there ↦ there
    | inr before ↦ absurd (empty_found word id (fill_vocab-plain j.vocab start).1 before)
  ]

  word-Named : (word : List ℕ) (id : ℕ) → In word id j.vocab → Named full word id
  word-Named word id there =
      let fits : id < length start.id_to_tok = omega (
        arith,
        max_id_lem 0 j.vocab word id there,
        length-replicate (suc (max_id 0 j.vocab)) (codes ""),
      ) in
      let name = fill_vocab-name j.vocab start word id sound.ids fits there in
      let others =
        every_In (λ (c, i). i ≢ id) j.added_tokens
          (λ key i at e. (sound.apart word key id i there at).1 (sym e)) in
      (
        add_tokens-kept j.added_tokens ranked id word name others,
        elim (Option-cases (find_in full.added_map word)) [
          | inl missing ↦ missing
          | inr (i, found) ↦
              absurd ((sound.apart word word id i there (added_In word i found)).0 refl)
        ],
      )

  byte_known : (b : ℕ) → IsByte b → (id : ℕ) × (find_in full.tok_to_id (b2s b) ≡ some id)
  byte_known b h =
      let (id, found) = kept_found j.vocab start (b2s b) (inr (sound.bytes b h)) in
      (id, rw (add_tokens-words j.added_tokens ranked) found)

  token-AddedWord : (key : List ℕ) (id : ℕ) → In key id (sort full.added) → AddedWord full (key, id)
  token-AddedWord key id at =
      let none_before = (fill_vocab-plain j.vocab start).0 in
      let all : full.added ≡ j.added_tokens =
        add_tokens-added j.added_tokens ranked ∙ ap (λ m. m ++ j.added_tokens) none_before in
      let there = subst (In key id) all (reorders full.added key id at) in
      (
        add_tokens-name j.added_tokens ranked key id sound.added_ids there,
        add_tokens-known j.added_tokens ranked key (inr (id, there)),
      )

  -- For a sound file, and a sort that only moves entries: the tokenizer that `load` builds is coherent.
  pub load-Coherent : Coherent (load sort j)
  unfolding load
  load-Coherent = record {
    bytes = byte_known;
    words = λ word id found. word-Named word id (word_In word id found);
    added_words = every_In (AddedWord (load sort j)) (sort full.added) token-AddedWord;
  }
