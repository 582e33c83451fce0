-- ===== src/Tokenizer/Vocab.antt =====
-- The tables of the class Tokenizer, special_id and load (src/tokenizer/tokenizer.hpp and .cpp). A hash
-- map is its writes, the newest first. The JSON file comes parsed, and std::sort is a parameter of load.
use helios_glm53flash.Prelude.{
  ℕ, suc, ◌-◌, max, List, [], ◌∷◌, ◌++◌, Option, none, some, length, set, take, drop, replicate,
  codes, leb, ◌==◌, if◌then◌else◌, same_words,
}

abbrev pub Table : Type 0
Table = List (List ℕ × ℕ)

-- `m.find(key)`
unfoldable pub find_in : Table → List ℕ → Option ℕ
find_in [] key = none
find_in ((k, v) ∷ m) key = let rest = find_in m key in if same_words k key then some v else rest

pub record Tokenizer : Type 0 where
  pub tok_to_id : Table
  pub id_to_tok : List (List ℕ)
  pub merge_rank : Table
  pub added : Table
  pub added_map : Table
  pub eos : ℕ

-- none stands for -1
unfoldable pub special_id : Tokenizer → List ℕ → Option ℕ
unfolding find_in
special_id tk s = find_in tk.added_map s

-- An entry of `merges`: two strings, or one with a blank between them.
pub data MergeEntry : Type 0 where
  pair : List ℕ → List ℕ → MergeEntry
  text : List ℕ → MergeEntry

-- What `load` reads of tokenizer.json.
pub record TokenizerJson : Type 0 where
  pub vocab : Table
  pub merges : List MergeEntry
  pub added_tokens : Table

unfoldable pub max_id : ℕ → Table → ℕ
max_id maxid [] = maxid
max_id maxid ((k, id) ∷ vocab) = max_id (max maxid id) vocab

-- The second loop over the vocabulary.
unfoldable pub fill_vocab : Table → Tokenizer → Tokenizer
fill_vocab [] tk = tk
fill_vocab ((key, id) ∷ vocab) tk =
    fill_vocab vocab
      (record tk { tok_to_id = (key, id) ∷ tk.tok_to_id; id_to_tok = set tk.id_to_tok id key })

-- `s.find(' ')`
unfoldable pub find_blank : List ℕ → Option ℕ
find_blank [] = none
find_blank (c ∷ s) =
    let rest = find_blank s in
    if c == 0x20 then some 0 else elim rest [ none ↦ none | some i ↦ some (suc i) ]

-- The two strings of an entry. Without a blank both are the whole string: `npos + 1` is 0.
unfoldable pub halves : MergeEntry → List ℕ × List ℕ
unfolding find_blank
halves (MergeEntry.pair a b) = (a, b)
halves (MergeEntry.text s) = elim (find_blank s) [
  | none ↦ (s, s)
  | some sp ↦ (take sp s, drop (suc sp) s)
]

-- `a + '\x01' + b`
abbrev pub merge_key : List ℕ → List ℕ → List ℕ
merge_key a b = a ++ (1 ∷ b)

unfoldable pub rank_merges : ℕ → List MergeEntry → Table → Table
unfolding halves
rank_merges rank [] m = m
rank_merges rank (e ∷ merges) m =
    rank_merges (suc rank) merges ((merge_key (halves e).0 (halves e).1, rank) ∷ m)

-- The loop over the added tokens.
unfoldable pub add_tokens : Table → Tokenizer → Tokenizer
add_tokens [] tk = tk
add_tokens ((c, id) ∷ tokens) tk =
    let names =
      if leb (length tk.id_to_tok) id
      then tk.id_to_tok ++ replicate (suc id - length tk.id_to_tok) []
      else tk.id_to_tok in
    add_tokens tokens (record tk {
      added = tk.added ++ ((c, id) ∷ []);
      added_map = (c, id) ∷ tk.added_map;
      id_to_tok = set names id c;
    })

abbrev pub endoftext : List ℕ
endoftext = codes "<|endoftext|>"

abbrev pub no_tokens : ℕ → Tokenizer
no_tokens maxid = record {
  tok_to_id = [];
  id_to_tok = replicate (suc maxid) [];
  merge_rank = [];
  added = [];
  added_map = [];
  eos = 0;
}

-- `sort` is the call of std::sort with the longer content first.
unfoldable pub load : (Table → Table) → TokenizerJson → Tokenizer
unfolding max_id fill_vocab rank_merges add_tokens find_in
load sort j =
    let named = fill_vocab j.vocab (no_tokens (max_id 0 j.vocab)) in
    let ranked = record named { merge_rank = rank_merges 0 j.merges [] } in
    let tk = add_tokens j.added_tokens ranked in
    record tk {
      added = sort tk.added;
      eos = elim (find_in tk.added_map endoftext) [ none ↦ 0 | some id ↦ id ];
    }
