-- ===== src/Tokenizer/Codec.antt =====
-- Tokenizer::encode and Tokenizer::decode (src/tokenizer/tokenizer.cpp). Ids are natural numbers: `decode`
-- skips a negative one.
pub mod Longest
pub mod Spelling
pub mod Pieces
pub mod RoundTrip
use helios_glm53flash.Prelude.{
  ℕ, zero, suc, ◌+◌, ◌-◌, Bool, true, false, ◌&&◌, List, [], ◌∷◌, ◌++◌, Option, none, some, length,
  get_elem?, take, drop, leb, if◌then◌else◌, same_words,
}
use helios_glm53flash.Tokenizer.Symbols.{s2b, dec_cp}
use helios_glm53flash.Tokenizer.Classes.{Ranges}
use helios_glm53flash.Tokenizer.Split.{pretokenize}
use helios_glm53flash.Tokenizer.Vocab.{Table, Tokenizer, find_in}
use helios_glm53flash.Tokenizer.Merge.{bpe_piece}

-- `text.compare(i, c.size(), c) == 0`, within the text.
unfoldable pub stands_at : List ℕ → List ℕ → Bool
stands_at c s = leb (length c) (length s) && same_words (take (length c) s) c

-- The loop over the added tokens, with `matched` and `mlen`.
unfoldable pub match_added : Table → List ℕ → Option ℕ → ℕ → Option ℕ × ℕ
unfolding stands_at
match_added [] s matched mlen = (matched, mlen)
match_added ((c, id) ∷ added) s matched mlen =
    let hit = stands_at c s in
    let later =
      match_added added s (if hit then some id else matched) (if hit then length c else mlen) in
    if leb (length c) mlen then (matched, mlen) else later

module _ (t : Ranges) (tk : Tokenizer) where
  -- `seg.substr(a, b - a)`, its ids, and those of the other pieces.
  unfoldable pub range_ids : List ℕ → List (ℕ × ℕ) → List ℕ
  range_ids seg [] = []
  range_ids seg ((a, b) ∷ pieces) = bpe_piece tk (take (b - a) (drop a seg)) ++ range_ids seg pieces

  -- `flush`; the segment is the text from `seg_start` to the position.
  unfoldable pub flush : List ℕ → List ℕ → List ℕ
  unfolding range_ids
  flush [] out = out
  flush (c ∷ seg) out = out ++ range_ids (c ∷ seg) (pretokenize t (c ∷ seg))

  -- The scan, with what is left of the text, the segment and `out`; a round passes a byte.
  unfoldable pub encode_from : ℕ → List ℕ → List ℕ → List ℕ → List ℕ
  unfolding match_added flush
  encode_from zero s seg out = flush seg out
  encode_from (suc fuel) [] seg out = flush seg out
  encode_from (suc fuel) (c ∷ s) seg out =
      let found = match_added tk.added (c ∷ s) none 0 in
      elim (found.0) [
        | none ↦ encode_from fuel s (seg ++ (c ∷ [])) out
        | some id ↦ encode_from fuel (drop found.1 (c ∷ s)) [] (flush seg out ++ (id ∷ []))
      ]

  unfoldable pub encode : List ℕ → List ℕ
  unfolding encode_from
  encode text = encode_from (length text) text [] []

-- The loop over the symbols of a token; what is no symbol stands for itself.
unfoldable pub decode_token : ℕ → List ℕ → List ℕ
decode_token zero s = []
decode_token (suc fuel) [] = []
decode_token (suc fuel) (c ∷ s) =
    let l = (dec_cp c s).0 in
    let rest = decode_token fuel (drop l (c ∷ s)) in
    let sub = take l (c ∷ s) in elim (s2b sub) [ none ↦ sub ++ rest | some b ↦ b ∷ rest ]

module _ (tk : Tokenizer) (keep_special : Bool) where
  -- The text of one id.
  unfoldable pub id_text : ℕ → List ℕ
  unfolding find_in decode_token
  id_text id = elim (get_elem? tk.id_to_tok id) [
    | none ↦ []
    | some word ↦ elim (find_in tk.added_map word) [
      | some other ↦ if keep_special then word else []
      | none ↦ decode_token (length word) word
    ]
  ]

  unfoldable pub decode : List ℕ → List ℕ
  unfolding id_text
  decode [] = []
  decode (id ∷ ids) = id_text id ++ decode ids
