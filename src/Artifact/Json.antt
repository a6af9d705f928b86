-- ===== src/Artifact/Json.antt =====
-- JSON values and their canonical text: `canonicalJsonStringify` of src/artifact/contract.ts.
-- `json_string` is `JSON.stringify` of a text. A number is a natural number or, by its text, any
-- other finite number.
use Prim.Native.String.{◌++◌, compare}
use Prim.Native.Nat.{Ordering}
use ai_agent_runner.Base.{ℕ, String, ◌≡◌, refl, Bool, true, false, List, [], ◌∷◌, map}
use ai_agent_runner.Base.Lists.Sort.{sort}
use ai_agent_runner.Base.Text.Decimal.{decimal}

mutual
  pub data Json : Type 0 where
    json_null : Json
    json_bool : Bool → Json
    json_natural : ℕ → Json
    json_number : String → Json
    json_text : String → Json
    json_array : JsonItems → Json
    json_object : JsonFields → Json

  pub data JsonItems : Type 0 where
    no_items : JsonItems
    item : Json → JsonItems → JsonItems

  pub data JsonFields : Type 0 where
    no_fields : JsonFields
    field : String → Json → JsonFields → JsonFields

-- `Object.keys(value)`
abbrev pub keys_of : JsonFields → List String
keys_of no_fields = []
keys_of (field key value rest) = key ∷ keys_of rest

-- The order of `sort()` on texts.
abbrev pub text_le : String → String → Bool
text_le a b = elim (compare a b) [ Ordering.gt ↦ false | _ ↦ true ]

-- `texts.join(",")`
abbrev comma_separated : List String → String
comma_separated [] = ""
comma_separated (x ∷ []) = x
comma_separated (x ∷ y ∷ xs) = x ++ "," ++ comma_separated (y ∷ xs)

abbrev key_le : String × String → String × String → Bool
key_le (a, x) (b, y) = text_le a b

module _ (json_string : String → String) where
  abbrev bool_text : Bool → String
  bool_text true = "true"
  bool_text false = "false"

  abbrev field_text : String × String → String
  field_text (key, text) = json_string key ++ ":" ++ text

  unfoldable mutual
    pub canonical_json_stringify : Json → String
    canonical_json_stringify json_null = "null"
    canonical_json_stringify (json_bool b) = bool_text b
    canonical_json_stringify (json_natural n) = decimal n
    canonical_json_stringify (json_number text) = text
    canonical_json_stringify (json_text text) = json_string text
    canonical_json_stringify (json_array items) = "[" ++ comma_separated (item_texts items) ++ "]"
    canonical_json_stringify (json_object fields) =
        "{" ++ comma_separated (map field_text (sort key_le (field_texts fields))) ++ "}"

    pub item_texts : JsonItems → List String
    item_texts no_items = []
    item_texts (item value rest) = canonical_json_stringify value ∷ item_texts rest

    pub field_texts : JsonFields → List (String × String)
    field_texts no_fields = []
    field_texts (field key value rest) = (key, canonical_json_stringify value) ∷ field_texts rest

stringified :
    canonical_json_stringify
      (λ s. "'" ++ s ++ "'")
      (json_object (
        field "b"
          (json_array (item (json_natural 1) (item json_null no_items)))
          (field "a" (json_text "x") no_fields)))
    ≡ "{'a':'x','b':[1,null]}"
unfolding canonical_json_stringify decimal
stringified = refl
