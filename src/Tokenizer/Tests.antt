-- ===== src/Tokenizer/Tests.antt =====
-- The tokenizer at a file that names every byte, with one merge and one added token.
use helios_glm53flash.Prelude.{
  same_words, ==_iff, ◌==◌, Bool-cases, ℕ, zero, suc, ◌≤◌, ◌<◌, ◌≡◌, ◌≢◌, ◌⊎◌, ◌↔◌, refl, sym, ap,
  ◌∙◌, inl, inr, true, List, [], ◌∷◌, none, map, arith, length, codes, All,
}
use helios_glm53flash.Tokenizer.Symbols.{b2s, dec_cp}
use helios_glm53flash.Tokenizer.Classes.{
  in_ranges_from, is_space, is_newline, is_number, is_letter, URange, Ranges, in_ranges,
}
use helios_glm53flash.Tokenizer.Classes.Search.{Sorted, HoldsAt, in_ranges-HoldsAt}
use helios_glm53flash.Tokenizer.Split.{
  cp_at, run_at_most, run, starts_with, longest_ending, spaces_from, spaces, space_piece, is_mark,
  pretokenize_from, mark_piece, next_piece, pretokenize,
}
use helios_glm53flash.Tokenizer.Split.Partition.{Tiles, pretokenize-Tiles}
use helios_glm53flash.Tokenizer.Vocab.{
  find_in, merge_key, Table, Tokenizer, TokenizerJson, MergeEntry, load,
}
use helios_glm53flash.Tokenizer.Merge.{
  consider, pick_from, merge_at, merge_from, symbol_ids, all_ids, merged, bpe_piece,
}
use helios_glm53flash.Tokenizer.Merge.Steps.{Merges, Final, merged-Merges}
use helios_glm53flash.Tokenizer.Codec.{
  range_ids, flush, stands_at, encode_from, match_added, encode, decode,
}
use helios_glm53flash.Tokenizer.Codec.Spelling.{IsByte, length-b2s}
use helios_glm53flash.Tokenizer.Codec.Longest.{NoLonger, StandsFirst, match_added-StandsFirst}
use helios_glm53flash.Tokenizer.Codec.Pieces.{Coherent}
use helios_glm53flash.Tokenizer.Codec.RoundTrip.{decode-encode}
use helios_glm53flash.Tokenizer.Loaded.{Sound, Reorders, load-Coherent}
use helios_glm53flash.Tokenizer.Loaded.Entries.{In, Distinct}

-- Two letters of Latin-1.
abbrev latin : List URange
latin = record { lo = 0xaa; hi = 0xaa } ∷ record { lo = 0xb5; hi = 0xb5 } ∷ []

latin-Sorted : Sorted latin
latin-Sorted zero zero u v lt p q = absurd (omega arith)
latin-Sorted zero (suc zero) u v lt p q =
    let a : record { lo = 0xaa; hi = 0xaa } ≡ u = cc in
    let b : record { lo = 0xb5; hi = 0xb5 } ≡ v = cc in
    (
      omega (arith, ap (λ r. r.lo) a, ap (λ r. r.hi) a),
      omega (arith, ap (λ r. r.hi) a, ap (λ r. r.lo) b),
      omega (arith, ap (λ r. r.lo) b, ap (λ r. r.hi) b),
    )
latin-Sorted zero (suc (suc j)) u v lt p q = absurd (cc q)
latin-Sorted (suc i) zero u v lt p q = absurd (omega arith)
latin-Sorted (suc i) (suc zero) u v lt p q = absurd (omega arith)
latin-Sorted (suc i) (suc (suc j)) u v lt p q = absurd (cc q)

in_ranges-HoldsAt_example : (in_ranges 0xb5 latin ≡ true) ↔ ((i : ℕ) × HoldsAt 0xb5 latin i)
in_ranges-HoldsAt_example = in_ranges-HoldsAt 0xb5 latin latin-Sorted

abbrev ranges : Ranges
ranges = record { letters = latin; numbers = [] }

pieces_test :
    pretokenize ranges (codes "Hi, it's 1234  x")
    ≡ (0, 2) ∷ (2, 3) ∷ (3, 6) ∷ (6, 8) ∷ (8, 9) ∷ (9, 12) ∷ (12, 13) ∷ (13, 14) ∷ (14, 16) ∷ []
unfolding pretokenize pretokenize_from next_piece mark_piece is_mark space_piece spaces spaces_from
    longest_ending starts_with run run_at_most cp_at dec_cp is_letter is_number is_newline is_space
    in_ranges in_ranges_from
pieces_test = refl

-- An ideographic space before a mark: the first piece ends inside the space.
cut_space : next_piece ranges (0xe3 ∷ 0x80 ∷ 0x80 ∷ 0x21 ∷ []) ≡ 2
unfolding next_piece mark_piece is_mark space_piece spaces spaces_from longest_ending starts_with
    run run_at_most cp_at dec_cp is_letter is_number is_newline is_space in_ranges in_ranges_from
cut_space = refl

pretokenize-Tiles_example : Tiles 0 5 (pretokenize ranges (codes "it's "))
pretokenize-Tiles_example = pretokenize-Tiles ranges (codes "it's ")

byte_words : ℕ → Table
byte_words zero = []
byte_words (suc n) = (b2s n, n) ∷ byte_words n

-- Its ids 0 to 255 are the bytes.
abbrev file : TokenizerJson
file = record {
  vocab = (codes "hi", 256) ∷ byte_words 256;
  merges = MergeEntry.text (codes "h i") ∷ [];
  added_tokens = (codes "<|endoftext|>", 300) ∷ [];
}

byte_words-In : (n b : ℕ) → b < n → In (b2s b) b (byte_words n)
unfolding byte_words
byte_words-In zero b lt = absurd (omega arith)
byte_words-In (suc n) b lt = elim (Bool-cases (b == n)) [
  | inl same ↦ let e = (==_iff b n).0 same in (0, rw e refl)
  | inr other ↦ let (j, at) = byte_words-In n b (ground arith) in (suc j, at)
]

byte_words-entry : (n a : ℕ) (k : List ℕ) → In k a (byte_words n) → (k ≡ b2s a) × (a < n)
unfolding byte_words
byte_words-entry zero a k (j, at) = absurd (cc at)
byte_words-entry (suc n) a k (zero, at) =
    let word : b2s n ≡ k = cc in let id : n ≡ a = cc in (sym word ∙ ap b2s id, omega arith)
byte_words-entry (suc n) a k (suc j, at) =
    let (word, lt) = byte_words-entry n a k (j, at) in (word, omega arith)

byte_words-below : (n m : ℕ) → n ≤ m → All (λ (k, i). i ≢ m) (byte_words n)
unfolding byte_words
byte_words-below zero m h = tt
byte_words-below (suc n) m h = (λ e. omega arith, byte_words-below n m (omega arith))

byte_words-Distinct : (n : ℕ) → Distinct (byte_words n)
unfolding byte_words
byte_words-Distinct zero = tt
byte_words-Distinct (suc n) = (byte_words-below n n (omega arith), byte_words-Distinct n)

file-apart :
    (k l : List ℕ) (a b : ℕ) → In k a file.vocab → In l b file.added_tokens → (k ≢ l) × (a ≢ b)
file-apart k l a b there (suc j, at) = absurd (cc at)
file-apart k l a b (zero, first) (zero, at) =
    let word : codes "hi" ≡ k = cc in
    let id : 256 ≡ a = cc in
    let content : codes "<|endoftext|>" ≡ l = cc in
    let number : 300 ≡ b = cc in
    (λ e. omega (arith, ap length word, ap length content, ap length e), λ e. omega arith)
file-apart k l a b (suc i, later) (zero, at) =
    let (word, lt) = byte_words-entry 256 a k (i, later) in
    let content : codes "<|endoftext|>" ≡ l = cc in
    let number : 300 ≡ b = cc in
    (
      λ e. omega (arith, ap length word, length-b2s a lt, ap length content, ap length e),
      λ e. omega arith,
    )

file-Sound : Sound file
file-Sound = record {
  bytes = λ b h. let (j, at) = byte_words-In 256 b h in (b, (suc j, at));
  ids = (byte_words-below 256 256 (omega arith), byte_words-Distinct 256);
  added_ids = (tt, tt);
  apart = file-apart;
}

-- One entry is in order already.
abbrev unmoved : Table → Table
unmoved m = m

unmoved-Reorders : Reorders unmoved
unmoved-Reorders m key id h = h

load-Coherent_example : Coherent (load unmoved file)
load-Coherent_example = load-Coherent unmoved file unmoved-Reorders file-Sound

abbrev greeting : List ℕ
greeting = codes "hi <|endoftext|>"

greeting-bytes : All IsByte greeting
greeting-bytes = ground arith

decode-encode_example :
    decode (load unmoved file) true (encode ranges (load unmoved file) greeting) ≡ greeting
decode-encode_example =
    decode-encode (load unmoved file) (load-Coherent unmoved file unmoved-Reorders file-Sound)
      ranges greeting greeting-bytes

-- `h` and `i` have ids and a merge.
abbrev small : Tokenizer
small = record {
  tok_to_id = (codes "h", 0) ∷ (codes "i", 1) ∷ (codes "hi", 2) ∷ [];
  id_to_tok = codes "h" ∷ codes "i" ∷ codes "hi" ∷ codes "<e>" ∷ [];
  merge_rank = (merge_key (codes "h") (codes "i"), 0) ∷ [];
  added = (codes "<e>", 3) ∷ [];
  added_map = (codes "<e>", 3) ∷ [];
  eos = 3;
}

encode_test : encode ranges small (codes "hhi<e>i") ≡ 0 ∷ 2 ∷ 3 ∷ 1 ∷ []
unfolding encode encode_from match_added stands_at flush range_ids bpe_piece all_ids symbol_ids
    merged merge_from merge_at pick_from consider find_in same_words b2s pretokenize
    pretokenize_from next_piece mark_piece is_mark space_piece spaces spaces_from longest_ending
    starts_with run run_at_most cp_at dec_cp is_letter is_number is_newline is_space in_ranges
    in_ranges_from
encode_test = refl

merged-Merges_example :
    Merges small (map b2s (codes "hhi")) (merged small (codes "hhi"))
    × Final small (merged small (codes "hhi"))
merged-Merges_example = merged-Merges small (codes "hhi")

match_added-StandsFirst_example :
    (((match_added small.added (codes "<e>i") none 0).0 ≡ none)
        × ((match_added small.added (codes "<e>i") none 0).1 ≡ 0)
      ⊎ StandsFirst small.added
          (codes "<e>i")
          (match_added small.added (codes "<e>i") none 0).0
          (match_added small.added (codes "<e>i") none 0).1)
    × NoLonger small.added (codes "<e>i") (match_added small.added (codes "<e>i") none 0).1
match_added-StandsFirst_example = match_added-StandsFirst small.added (codes "<e>i") (tt, tt)
