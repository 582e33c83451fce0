-- ===== src/Server/Reading.antt =====
-- Readers of JSON that may refuse or throw, and chat_content_text (src/core/chat.cpp).
use helios_glm53flash.Prelude.{
  ℕ, suc, Bool, List, [], ◌∷◌, ◌++◌, Option, none, some, length, codes, if◌then◌else◌, same_words,
}
use helios_glm53flash.Chat.Json.{
  Json, Items, get_member, string_of, boolean_of, array, object, string, null,
}
use helios_glm53flash.Chat.Calls.{digits_before}

-- A reader of a request ends with a value, refuses with a message, or the JSON library throws.
pub data Reading (A : Type 0) : Type 0 where
  accepted : A → Reading A
  refused : List ℕ → Reading A
  thrown : Reading A

infixl 5 ◌>>=◌
abbrev pub ◌>>=◌ : {A B : Type 0} → Reading A → (A → Reading B) → Reading B
Reading.accepted a >>= f = f a
Reading.refused err >>= f = Reading.refused err
Reading.thrown >>= f = Reading.thrown

-- `j.value(key, default)` for a string.
unfoldable pub value_string : List ℕ → List ℕ → Json → Reading (List ℕ)
unfolding get_member string_of
value_string key default j = elim j [
  | object ms ↦ elim (get_member key (Json.object ms)) [
    | none ↦ Reading.accepted default
    | some v ↦ elim (string_of v) [ none ↦ Reading.thrown | some s ↦ Reading.accepted s ]
  ]
  | _ ↦ Reading.thrown
]

-- A string, a boolean member, where there is one.
unfoldable pub string_at : List ℕ → Json → Option (List ℕ)
unfolding get_member string_of
string_at key j = elim (get_member key j) [ none ↦ none | some v ↦ string_of v ]

unfoldable pub boolean_at : List ℕ → Json → Option Bool
unfolding get_member boolean_of
boolean_at key j = elim (get_member key j) [ none ↦ none | some v ↦ boolean_of v ]

abbrev pub or_else : {A : Type 0} → Option A → A → A
or_else none a = a
or_else (some b) a = b

-- The text so far, and the image URLs.
pub record Content : Type 0 where
  pub text : List ℕ
  pub image_urls : List (List ℕ)

abbrev pub image_marker : ℕ → List ℕ
image_marker n = codes "[HELIOS_IMAGE_" ++ (digits_before (suc n) n (codes "]"))

abbrev pub bad_part : List ℕ
bad_part =
    codes
      "unsupported content part: use text or image_url with a base64 data URL; video and audio are not implemented"

abbrev pub bad_content : List ℕ
bad_content = codes "message content must be text, null, or an array of text parts"

-- The URL of an `image_url` part.
unfoldable pub image_url_of : Json → Option (List ℕ)
unfolding get_member string_at
image_url_of part = elim (get_member (codes "image_url") part) [
  | none ↦ none
  | some u ↦ string_at (codes "url") u
]

-- A part that is an object, from its type; a part of another kind is refused.
unfoldable pub object_part : List ℕ → Json → Content → Reading Content
unfolding string_at image_url_of
object_part type part c =
    if same_words type (codes "text")
    then (elim (string_at (codes "text") part) [
      | none ↦ Reading.refused bad_part
      | some s ↦ Reading.accepted (record c { text = c.text ++ s })
    ])
    else if same_words type (codes "image_url")
    then (elim (image_url_of part) [
      | none ↦ Reading.refused bad_part
      | some url ↦ Reading.accepted (record c {
        text = c.text ++ image_marker (length c.image_urls);
        image_urls = c.image_urls ++ (url ∷ []);
      })
    ])
    else Reading.refused bad_part

unfoldable pub content_part : Json → Content → Reading Content
unfolding value_string object_part
content_part part c = elim part [
  | string s ↦ Reading.accepted (record c { text = c.text ++ s })
  | object ms ↦ do
    type ← value_string (codes "type") [] (Json.object ms)
    object_part type (Json.object ms) c
  | _ ↦ Reading.refused bad_part
]

unfoldable pub content_parts : Items → Content → Reading Content
unfolding content_part
content_parts Items.no_items c = Reading.accepted c
content_parts (Items.item part parts) c = do next ← content_part part c; content_parts parts next

-- The text of a content, with the URLs collected before and in it.
unfoldable pub chat_content_text : Json → List (List ℕ) → Reading Content
unfolding content_parts
chat_content_text content urls = elim content [
  | null ↦ Reading.accepted (record { text = []; image_urls = urls })
  | string s ↦ Reading.accepted (record { text = s; image_urls = urls })
  | array items ↦ content_parts items (record { text = []; image_urls = urls })
  | _ ↦ Reading.refused bad_content
]
