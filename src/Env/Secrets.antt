-- ===== src/Env/Secrets.antt =====
-- src/env/secrets.ts. The regular expression is matched by hand; the registry is the list of its values
-- in the order in which they were added, and the environment answers each name.
pub mod Reference
pub mod Scan
pub mod Sound
pub mod Collected
pub mod Registered
mod Tests
use Prim.Native.Char.{code}
use apiwright.Core.Json.{Json}
use apiwright.Env.Templates.{Piece, plain, token, is_word, after_prefix, size, add, add_pieces}
use apiwright.Env.Tree.{Mapped, walk_strings, map_tree}
use apiwright.Prelude.{
  ℕ, zero, suc, ◌+◌, Option, none, some, List, [], ◌∷◌, ◌++◌, String, str_eq, template, join, any,
  if◌then◌else◌,
}
use apiwright.Prelude.Maps.{map_get, map_set}

-- The longest run of `[A-Za-z0-9_]`, and the text after it.
unfoldable pub read_name : String → String × String
unfolding is_word
read_name String.[] = ("", "")
read_name (String.◌∷◌ c s) =
    let rest = read_name s in
    if is_word (code c) then (String.◌∷◌ c rest.0, rest.1) else ("", String.◌∷◌ c s)

-- A token at the start of the text: its name.
unfoldable pub match_secret : String → Option String
unfolding after_prefix read_name
match_secret s = elim (after_prefix "${secret." s) [
  | none ↦ none
  | some tail ↦
      let run = read_name tail in
      elim (after_prefix "}" run.1) [
        | none ↦ none
        | some rest ↦ if str_eq run.0 "" then none else some run.0
      ]
]

-- The matches of `SECRET_TOKEN_RE` and the characters between them; the number says how many characters
-- of the last match are still to pass.
unfoldable pub secret_pieces : ℕ → String → List Piece
unfolding match_secret size
secret_pieces skip String.[] = []
secret_pieces (suc skip) (String.◌∷◌ c s) = secret_pieces skip s
secret_pieces zero (String.◌∷◌ c s) = elim (match_secret (String.◌∷◌ c s)) [
  | none ↦ plain c ∷ secret_pieces zero s
  | some name ↦ token name ∷ secret_pieces (size name + 9) s
]

unfoldable pub collect_names : String → List String → List String
unfolding secret_pieces
collect_names text into = add_pieces (secret_pieces zero text) into

-- `String(resolved.get(name))`
abbrev pub value_text : Option String → String
value_text none = "undefined"
value_text (some value) = value

abbrev pub substitute_pieces : List Piece → List (String × String) → String
substitute_pieces [] resolved = ""
substitute_pieces (plain c ∷ ps) resolved = String.◌∷◌ c (substitute_pieces ps resolved)
substitute_pieces (token name ∷ ps) resolved =
    template (value_text (map_get name resolved) ∷ substitute_pieces ps resolved ∷ [])

unfoldable pub substitute : List (String × String) → String → String
unfolding secret_pieces
substitute resolved input = substitute_pieces (secret_pieces zero input) resolved

pub data SecretResolutionResult : Type 0 where
  resolved_to : Mapped String → SecretResolutionResult
  unresolved : (missing : List String) (error : String) → SecretResolutionResult

unfoldable pub secret_names : Json → List String
unfolding walk_strings collect_names
secret_names config = walk_strings collect_names config []

abbrev pub unresolved_secrets : List String → SecretResolutionResult
unresolved_secrets sorted = unresolved sorted (
    template (
      "Unresolved secret(s): "
      ∷ join ", " sorted
      ∷ ". Set the corresponding environment variable(s) before running."
      ∷ []))

-- `registry.add(value)` for each value of the map.
unfoldable pub register : List (String × String) → List String → List String
register [] registry = registry
register ((name, value) ∷ m) registry = register m (add value registry)

module _ (env : String → Option String) where
  -- `raw === undefined || raw === ""`
  unfoldable pub present : String → Option String
  present name = elim (env name) [
    | none ↦ none
    | some raw ↦ if str_eq raw "" then none else some raw
  ]

  unfoldable pub resolve_names :
      List String → List (String × String) → List (String × String) × List String
  resolve_names [] resolved = (resolved, [])
  resolve_names (name ∷ rest) resolved = elim (present name) [
    | none ↦ let after = resolve_names rest resolved in (after.0, name ∷ after.1)
    | some raw ↦ resolve_names rest (map_set name raw resolved)
  ]

  -- The result, and the registry after the call; `sort` is the runtime's.
  unfoldable pub resolve_secrets :
      (List String → List String) → Json → List String → SecretResolutionResult × List String
  unfolding secret_names resolve_names register map_tree substitute present
  resolve_secrets sort config registry =
      let looked_up = resolve_names (secret_names config) [] in
      elim looked_up.1 [
        | [] ↦
            (resolved_to (map_tree (substitute looked_up.0) config), register looked_up.0 registry)
        | m ∷ ms ↦ (unresolved_secrets (sort (m ∷ ms)), registry)
      ]
