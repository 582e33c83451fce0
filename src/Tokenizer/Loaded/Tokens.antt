-- ===== src/Tokenizer/Loaded/Tokens.antt =====
-- The loop of `load` over the added tokens: what a token and an id lead to.
use helios_glm53flash.Prelude.{
  ℕ, zero, suc, ◌-◌, ◌<◌, ◌≡◌, ◌≢◌, ◌⊎◌, refl, sym, ◌∙◌, inl, inr, List, [], ◌∷◌, ◌++◌, some, arith,
  length, get_elem?, set, replicate, leb, if◌then◌else◌, Bool-cases, All, get_elem?-set_self,
  get_elem?-set_ne, length-replicate, length-append,
}
use mathlib.Core.List.{append_assoc, append-nil}
use helios_glm53flash.Tokenizer.Vocab.{Table, find_in, Tokenizer, add_tokens}
use helios_glm53flash.Tokenizer.Loaded.Entries.{In, Distinct, find_in-cases, write_known}

-- What a round leaves: room for the id, and the token.
abbrev room : ℕ → List (List ℕ) → List (List ℕ)
room id names =
    if leb (length names) id then names ++ replicate (suc id - length names) [] else names

abbrev with_token : List ℕ → ℕ → Tokenizer → Tokenizer
with_token c id tk = record tk {
  added = tk.added ++ ((c, id) ∷ []);
  added_map = (c, id) ∷ tk.added_map;
  id_to_tok = set (room id tk.id_to_tok) id c;
}

get_elem?-append_left :
    (us vs : List (List ℕ)) (i : ℕ) (w : List ℕ)
    → get_elem? us i ≡ some w
    → get_elem? (us ++ vs) i ≡ some w
get_elem?-append_left [] vs i w h = absurd (cc h)
get_elem?-append_left (u ∷ us) vs zero w h = h
get_elem?-append_left (u ∷ us) vs (suc i) w h = get_elem?-append_left us vs i w h

room-kept :
    (names : List (List ℕ)) (id i : ℕ) (w : List ℕ)
    → get_elem? names i ≡ some w
    → get_elem? (room id names) i ≡ some w
room-kept names id i w h = elim (Bool-cases (leb (length names) id)) [
  | inl short ↦ rw short (get_elem?-append_left names (replicate (suc id - length names) []) i w h)
  | inr long ↦ rw long h
]

room-within : (names : List (List ℕ)) (id : ℕ) → id < length (room id names)
room-within names id = elim (Bool-cases (leb (length names) id)) [
  | inl short ↦
      let pad : List (List ℕ) = replicate (suc id - length names) [] in
      let size : length pad ≡ suc id - length names = length-replicate (suc id - length names) [] in
      rw short (ground (arith, length-append names pad, size))
  | inr long ↦ rw long (ground arith)
]

-- Names at ids that no token uses stay.
pub add_tokens-kept :
    (tokens : Table) (tk : Tokenizer) (i : ℕ) (w : List ℕ)
    → get_elem? tk.id_to_tok i ≡ some w
    → All (λ (c, id). id ≢ i) tokens
    → get_elem? (add_tokens tokens tk).id_to_tok i ≡ some w
unfolding add_tokens
add_tokens-kept [] tk i w h k = h
add_tokens-kept ((c, id) ∷ tokens) tk i w h (k, ks) =
    add_tokens-kept tokens (with_token c id tk) i w
      (get_elem?-set_ne (room id tk.id_to_tok) id i c k ∙ room-kept tk.id_to_tok id i w h) ks

pub add_tokens-name :
    (tokens : Table) (tk : Tokenizer) (key : List ℕ) (i : ℕ)
    → Distinct tokens
    → In key i tokens
    → get_elem? (add_tokens tokens tk).id_to_tok i ≡ some key
unfolding add_tokens
add_tokens-name [] tk key i h (j, at) = absurd (cc at)
add_tokens-name ((c, id) ∷ tokens) tk key i (h, hs) (zero, at) =
    let e : id ≡ i = cc in
    let ec : c ≡ key = cc in
    rw (sym e, sym ec)
      (add_tokens-kept tokens (with_token c id tk) id c
        (get_elem?-set_self (room id tk.id_to_tok) id c (room-within tk.id_to_tok id)) h)
add_tokens-name ((c, id) ∷ tokens) tk key i (h, hs) (suc j, at) =
    add_tokens-name tokens (with_token c id tk) key i hs (j, at)

pub add_tokens-added :
    (tokens : Table) (tk : Tokenizer) → (add_tokens tokens tk).added ≡ tk.added ++ tokens
unfolding add_tokens
add_tokens-added [] tk = sym (append-nil tk.added)
add_tokens-added ((c, id) ∷ tokens) tk =
    add_tokens-added tokens (with_token c id tk) ∙ append_assoc tk.added ((c, id) ∷ []) tokens

pub add_tokens-words :
    (tokens : Table) (tk : Tokenizer) → (add_tokens tokens tk).tok_to_id ≡ tk.tok_to_id
unfolding add_tokens
add_tokens-words [] tk = refl
add_tokens-words ((c, id) ∷ tokens) tk = add_tokens-words tokens (with_token c id tk)

-- A content that is found is one of the tokens, or was found before.
pub add_tokens-found :
    (tokens : Table) (tk : Tokenizer) (key : List ℕ) (i : ℕ)
    → find_in (add_tokens tokens tk).added_map key ≡ some i
    → In key i tokens ⊎ (find_in tk.added_map key ≡ some i)
unfolding add_tokens
add_tokens-found [] tk key i e = inr e
add_tokens-found ((c, id) ∷ tokens) tk key i e =
    elim (add_tokens-found tokens (with_token c id tk) key i e) [
      | inl (j, at) ↦ inl (suc j, at)
      | inr found ↦ elim (find_in-cases c id tk.added_map key i found) [
        | inl (same, number) ↦ inl (0, cc (same, number))
        | inr earlier ↦ inr earlier
      ]
    ]

-- A content that was written is found.
pub add_tokens-known :
    (tokens : Table) (tk : Tokenizer) (key : List ℕ)
    → ((v : ℕ) × (find_in tk.added_map key ≡ some v)) ⊎ ((id : ℕ) × In key id tokens)
    → (v : ℕ) × (find_in (add_tokens tokens tk).added_map key ≡ some v)
unfolding add_tokens
add_tokens-known [] tk key (inl found) = found
add_tokens-known [] tk key (inr (id, (j, at))) = absurd (cc at)
add_tokens-known ((c, id) ∷ tokens) tk key h =
    add_tokens-known tokens (with_token c id tk) key (write_known c id tk.added_map tokens key h)
