-- ===== src/Env/Templates.antt =====
-- src/env/template-resolver.ts. The two regular expressions are matched by hand: a path is the longest
-- run of its characters, as no other character can end it but the closing brace. `length` of a path is
-- counted in characters; all of a token's characters are ASCII.
pub mod Lookups
pub mod Direct
pub mod Reference
mod Tests
use Prim.Native.Char.{Char, code}
use apiwright.Core.Json.{Json, json_property, items_of}
use apiwright.Env.Tree.{Mapped, walk_strings, map_tree}
use apiwright.Prelude.{
  ℕ, zero, suc, ◌+◌, Bool, Option, none, some, List, [], ◌∷◌, ◌++◌, String, length, str_eq,
  template, join, decimal, any, leb, ◌==◌, ◌&&◌, ◌||◌, if◌then◌else◌,
}
use apiwright.Prelude.Maps.{map_get, map_set}

-- What the runtime answers: the order of `sort`, `String` of a number, `JSON.stringify`, and the double of
-- a count.
pub record Runtime : Type 0 where
  sort : List String → List String
  number_text : ℕ → String
  json_text : Json → String
  count_bits : ℕ → ℕ

-- `[A-Za-z0-9_]`
unfoldable pub is_word : ℕ → Bool
is_word c = (leb 65 c && leb c 90) || (leb 97 c && leb c 122) || (leb 48 c && leb c 57) || c == 95

-- The text after a prefix.
unfoldable pub after_prefix : String → String → Option String
after_prefix String.[] s = some s
after_prefix (String.◌∷◌ c p) String.[] = none
after_prefix (String.◌∷◌ c p) (String.◌∷◌ d s) =
    let rest = after_prefix p s in if code c == code d then rest else none

-- The longest run of words and dots, split at the dots, and the text after it.
unfoldable pub read_path : String → List String × String
unfolding is_word
read_path String.[] = ("" ∷ [], "")
read_path (String.◌∷◌ c s) =
    let rest = read_path s in
    if is_word (code c)
    then elim rest.0 [
      | [] ↦ (String.◌∷◌ c "" ∷ [], rest.1)
      | w ∷ ws ↦ (String.◌∷◌ c w ∷ ws, rest.1)
    ]
    else if code c == 46
    then ("" ∷ rest.0, rest.1)
    else ("" ∷ [], String.◌∷◌ c s)

-- A token at the start of the text: its path, and the text after it.
unfoldable pub match_token : String → Option (String × String)
unfolding after_prefix read_path
match_token s = elim (after_prefix "${env." s) [
  | none ↦ none
  | some tail ↦
      let run = read_path tail in
      elim (after_prefix "}" run.1) [
        | none ↦ none
        | some rest ↦ if any (λ w. str_eq w "") run.0 then none else some (join "." run.0, rest)
      ]
]

pub data Piece : Type 0 where
  plain : Char → Piece
  token : String → Piece

unfoldable pub size : String → ℕ
size String.[] = 0
size (String.◌∷◌ c s) = suc (size s)

-- The matches of `ENV_TOKEN_RE` and the characters between them; the number says how many characters of
-- the last match are still to pass.
unfoldable pub pieces : ℕ → String → List Piece
unfolding match_token size
pieces skip String.[] = []
pieces (suc skip) (String.◌∷◌ c s) = pieces skip s
pieces zero (String.◌∷◌ c s) = elim (match_token (String.◌∷◌ c s)) [
  | none ↦ plain c ∷ pieces zero s
  | some found ↦ token found.0 ∷ pieces (size found.0 + 6) s
]

-- A `Set`, in the order in which its elements were added.
abbrev pub add : String → List String → List String
add path set = if any (str_eq path) set then set else set ++ path ∷ []

abbrev pub add_pieces : List Piece → List String → List String
add_pieces [] set = set
add_pieces (plain c ∷ ps) set = add_pieces ps set
add_pieces (token path ∷ ps) set = add_pieces ps (add path set)

unfoldable pub collect_paths : String → List String → List String
unfolding pieces
collect_paths text into = add_pieces (pieces zero text) into

pub data TemplateResolutionResult : Type 0 where
  resolved_to : Mapped (Option Json) → TemplateResolutionResult
  unresolved : (missing : List String) (error : String) → TemplateResolutionResult

unfoldable pub referenced : Json → List String
unfolding walk_strings collect_paths
referenced config = walk_strings collect_paths config []

abbrev pub missing_error : List String → TemplateResolutionResult
missing_error sorted = unresolved sorted (
    template (
      "Unresolved environment reference(s): "
      ∷ join ", " sorted
      ∷ ". Check the environment file."
      ∷ []))

-- An own property of an array: an element, or its length.
abbrev pub element : String → ℕ → List Json → Option Json
element segment i [] = none
element segment i (x ∷ xs) =
    if str_eq segment (decimal i) then some x else element segment (i + 1) xs

module _ (run : Runtime) where
  abbrev pub own_property : String → Json → Option Json
  own_property segment (Json.object fs) = json_property segment fs
  own_property segment (Json.array xs) =
      if str_eq segment "length"
      then some (Json.number (run.count_bits (length (items_of xs))))
      else element segment 0 (items_of xs)
  own_property segment _ = none

  unfoldable pub lookup_segments : List String → Json → Option Json
  lookup_segments [] current = some current
  lookup_segments (segment ∷ rest) current = elim (own_property segment current) [
    | none ↦ none
    | some next ↦ lookup_segments rest next
  ]

  unfoldable pub lookup_path : Json → String → Option Json
  unfolding lookup_segments read_path
  lookup_path env_object dotted_path = lookup_segments (read_path dotted_path).0 env_object

  -- `none` is undefined.
  unfoldable pub stringify : Option Json → String
  stringify none = "null"
  stringify (some Json.null) = "null"
  stringify (some (Json.string text)) = text
  stringify (some (Json.number n)) = run.number_text n
  stringify (some (Json.boolean b)) = if b then "true" else "false"
  stringify (some v) = run.json_text v

  unfoldable pub interpolate : List Piece → List (String × Json) → String
  unfolding stringify
  interpolate [] resolved = ""
  interpolate (plain c ∷ ps) resolved = String.◌∷◌ c (interpolate ps resolved)
  interpolate (token path ∷ ps) resolved =
      template (stringify (map_get path resolved) ∷ interpolate ps resolved ∷ [])

  unfoldable pub resolve_string : List (String × Json) → String → Option Json
  unfolding match_token interpolate pieces
  resolve_string resolved input =
      let text = some (Json.string (interpolate (pieces zero input) resolved)) in
      elim (match_token input) [
        | none ↦ text
        | some found ↦ if str_eq found.1 "" then map_get found.0 resolved else text
      ]

  -- The loop over the referenced paths: the map of the values, and the missing paths.
  unfoldable pub resolve_paths :
      Json → List String → List (String × Json) → List (String × Json) × List String
  unfolding lookup_path
  resolve_paths env_object [] resolved = (resolved, [])
  resolve_paths env_object (path ∷ rest) resolved = elim (lookup_path env_object path) [
    | none ↦
        let after = resolve_paths env_object rest resolved in
        (after.0, template ("env." ∷ path ∷ []) ∷ after.1)
    | some value ↦ resolve_paths env_object rest (map_set path value resolved)
  ]

  unfoldable pub resolve_templates : Json → Json → TemplateResolutionResult
  unfolding referenced resolve_paths map_tree resolve_string
  resolve_templates config env_object =
      let looked_up = resolve_paths env_object (referenced config) [] in
      elim looked_up.1 [
        | [] ↦ resolved_to (map_tree (resolve_string looked_up.0) config)
        | m ∷ ms ↦ missing_error (run.sort (m ∷ ms))
      ]
