-- ===== src/Chat/Calls.antt =====
-- Tool calls in the model's output: strip_ws, args_to_json, tool_name_of and tool_id_for
-- (src/core/chat.cpp). The JSON library is a parameter.
use helios_glm53flash.Prelude.{
  ◌>>=◌, ℕ, zero, suc, ◌+◌, ◌-◌, ◌/◌, ◌%◌, Bool, ◌||◌, List, [], ◌∷◌, ◌++◌, Option, none, some,
  length, take, drop, codes, ltb, ◌==◌, if◌then◌else◌, same_words,
}
use helios_glm53flash.Chat.Find.{find_from, find_tag}

-- What the code calls of the JSON library: a value that a text parses to (none where it throws), the
-- value of a string, and the text of an object with these members in order.
pub record JsonLib (J : Type 0) : Type 0 where
  pub parse : List ℕ → Option J
  pub of_string : List ℕ → J
  pub dump_object : List (List ℕ × J) → List ℕ

abbrev pub is_blank : ℕ → Bool
is_blank c = (c == 0x20) || ((c == 0x09) || ((c == 0x0d) || (c == 0x0a)))

-- `s.substr(s.find_first_not_of(...))`
unfoldable pub strip_front : List ℕ → List ℕ
strip_front [] = []
strip_front (c ∷ s) = let rest = strip_front s in if is_blank c then rest else c ∷ s

-- The text up to `s.find_last_not_of(...)`.
unfoldable pub strip_back : List ℕ → List ℕ
strip_back [] = []
strip_back (c ∷ s) = elim (strip_back s) [
  | [] ↦ if is_blank c then [] else c ∷ []
  | ◌∷◌ d rest ↦ c ∷ d ∷ rest
]

unfoldable pub strip_ws : List ℕ → List ℕ
unfolding strip_front strip_back
strip_ws s = strip_back (strip_front s)

abbrev pub arg_key : List ℕ
arg_key = codes "<arg_key>"

abbrev pub arg_key_end : List ℕ
arg_key_end = codes "</arg_key>"

abbrev pub arg_value : List ℕ
arg_value = codes "<arg_value>"

abbrev pub arg_value_end : List ℕ
arg_value_end = codes "</arg_value>"

-- The key, the value and where the next argument is looked for.
pub record Argument : Type 0 where
  pub key : List ℕ
  pub value : List ℕ
  pub next : ℕ

-- One round of the loop: the next argument, if its four tags are there.
unfoldable pub next_argument : List ℕ → ℕ → Option Argument
unfolding find_from
next_argument body pos = do
  ak ← find_from arg_key body pos
  ak_end ← find_from arg_key_end body ak
  av ← find_from arg_value body ak_end
  av_end ← find_from arg_value_end body av
  some (record {
    key = take (ak_end - ak - 9) (drop (ak + 9) body);
    value = take (av_end - av - 11) (drop (av + 11) body);
    next = av_end + 12;
  })

module _ {J : Type 0} (lib : JsonLib J) where
  abbrev pub value_of : List ℕ → J
  value_of text = elim (lib.parse text) [ none ↦ lib.of_string text | some v ↦ v ]

  -- `args[key] = v`: a key that is there keeps its place.
  unfoldable pub assign : List ℕ → J → List (List ℕ × J) → List (List ℕ × J)
  assign key v [] = (key, v) ∷ []
  assign key v ((k, w) ∷ args) =
      let rest = assign key v args in if same_words k key then (k, v) ∷ args else (k, w) ∷ rest

  -- The loop; a round passes twelve bytes at least, so as much fuel as bytes is enough.
  unfoldable pub arguments_from : ℕ → List ℕ → ℕ → List (List ℕ × J) → List (List ℕ × J)
  unfolding next_argument assign
  arguments_from zero body pos args = args
  arguments_from (suc fuel) body pos args = elim (next_argument body pos) [
    | none ↦ args
    | some a ↦ arguments_from fuel body a.next (assign a.key (value_of a.value) args)
  ]

  unfoldable pub args_to_json : List ℕ → List ℕ
  unfolding arguments_from
  args_to_json body = lib.dump_object (arguments_from (length body) body 0 [])

unfoldable pub tool_name_of : List ℕ → List ℕ
unfolding strip_ws find_tag
tool_name_of body = strip_ws (elim (find_tag arg_key body) [ none ↦ body | some p ↦ take p body ])

-- The decimal digits of `%d`, before those that are there; as much fuel as the number is enough.
unfoldable pub digits_before : ℕ → ℕ → List ℕ → List ℕ
digits_before zero n ds = ds
digits_before (suc fuel) n ds =
    let digit = 0x30 + n % 10 in
    if ltb n 10 then digit ∷ ds else digits_before fuel (n / 10) (digit ∷ ds)

unfoldable pub tool_id_for : ℕ → List ℕ
unfolding digits_before
tool_id_for n = codes "call_" ++ digits_before (suc n) n []
