-- ===== src/Chat/Json.antt =====
-- JSON values as the code reads them (nlohmann::ordered_json), and dump_pretty of src/core/chat.cpp. The
-- library's text of a value that is no container is a parameter.
use helios_glm53flash.Prelude.{
  ℕ, Bool, true, false, List, [], ◌++◌, Option, none, some, codes, if◌then◌else◌, same_words,
}

-- `Items` and `Members` are the lists inside an array and an object; a number is its text.
mutual
  pub data Json : Type 0 where
    null : Json
    boolean : Bool → Json
    number : List ℕ → Json
    string : List ℕ → Json
    array : Items → Json
    object : Members → Json

  pub data Items : Type 0 where
    no_items : Items
    item : Json → Items → Items

  pub data Members : Type 0 where
    no_members : Members
    member : List ℕ → Json → Members → Members

-- What the code relies on of the library: the text of a scalar, and parsing, none where it throws.
pub record JsonText : Type 0 where
  pub dump_scalar : Json → List ℕ
  pub parse : List ℕ → Option Json

abbrev pub comma : Bool → List ℕ
comma first = if first then [] else codes ", "

unfoldable mutual
  pub dump_pretty : JsonText → Json → List ℕ
  dump_pretty lib (Json.object members) = codes "{" ++ (dump_members lib members true ++ codes "}")
  dump_pretty lib (Json.array items) = codes "[" ++ (dump_items lib items true ++ codes "]")
  dump_pretty lib Json.null = lib.dump_scalar Json.null
  dump_pretty lib (Json.boolean b) = lib.dump_scalar (Json.boolean b)
  dump_pretty lib (Json.number n) = lib.dump_scalar (Json.number n)
  dump_pretty lib (Json.string s) = lib.dump_scalar (Json.string s)

  pub dump_items : JsonText → Items → Bool → List ℕ
  dump_items lib Items.no_items first = []
  dump_items lib (Items.item v items) first =
      comma first ++ (dump_pretty lib v ++ dump_items lib items false)

  pub dump_members : JsonText → Members → Bool → List ℕ
  dump_members lib Members.no_members first = []
  dump_members lib (Members.member key v members) first =
      comma first
      ++ (lib.dump_scalar (Json.string key)
          ++ (codes ": " ++ (dump_pretty lib v ++ dump_members lib members false)))

unfoldable pub find_member : List ℕ → Members → Option Json
find_member key Members.no_members = none
find_member key (Members.member k v members) =
    let rest = find_member key members in if same_words k key then some v else rest

-- `j.contains(key)` and `j[key]`: a value that is no object has no members.
unfoldable pub get_member : List ℕ → Json → Option Json
unfolding find_member
get_member key (Json.object members) = find_member key members
get_member key Json.null = none
get_member key (Json.boolean b) = none
get_member key (Json.number n) = none
get_member key (Json.string s) = none
get_member key (Json.array items) = none

-- `is_string` and `get<std::string>`
unfoldable pub string_of : Json → Option (List ℕ)
string_of (Json.string s) = some s
string_of Json.null = none
string_of (Json.boolean b) = none
string_of (Json.number n) = none
string_of (Json.array items) = none
string_of (Json.object ms) = none

-- `is_boolean` and `get<bool>`
unfoldable pub boolean_of : Json → Option Bool
boolean_of (Json.boolean b) = some b
boolean_of Json.null = none
boolean_of (Json.string s) = none
boolean_of (Json.number n) = none
boolean_of (Json.array items) = none
boolean_of (Json.object ms) = none
