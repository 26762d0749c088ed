-- ===== src/Core/Json.antt =====
-- JSON data as the loaders hand it on (the `JsonSchema` and `unknown` fields of
-- src/core/canonical-model.ts): a tree, since parsed JSON shares nothing. A number is the 64 bits of
-- its IEEE double. An object lists its keys once each, in the order `Object.keys` gives.
use apiwright.Prelude.{ℕ, Bool, Option, none, some, List, [], ◌∷◌, String, str_eq, if◌then◌else◌}

mutual
  pub data Json : Type 0 where
    null : Json
    boolean : Bool → Json
    number : ℕ → Json
    string : String → Json
    array : JsonItems → Json
    object : JsonFields → Json

  pub data JsonItems : Type 0 where
    nil : JsonItems
    cons : Json → JsonItems → JsonItems

  pub data JsonFields : Type 0 where
    end : JsonFields
    field : String → Json → JsonFields → JsonFields

abbrev pub items_of : JsonItems → List Json
items_of nil = []
items_of (cons x xs) = x ∷ items_of xs

abbrev pub fields_of : JsonFields → List (String × Json)
fields_of end = []
fields_of (field k x fs) = (k, x) ∷ fields_of fs

-- `o[k]`, `none` where the key is absent.
abbrev pub json_property : String → JsonFields → Option Json
json_property k end = none
json_property k (field j x fs) = if str_eq j k then some x else json_property k fs

-- `typeof x === "number"` and the like, on a property's value.
abbrev pub as_number : Option Json → Option ℕ
as_number (some (number n)) = some n
as_number _ = none

abbrev pub as_string : Option Json → Option String
as_string (some (string s)) = some s
as_string _ = none

abbrev pub as_array : Option Json → Option (List Json)
as_array (some (array xs)) = some (items_of xs)
as_array _ = none
