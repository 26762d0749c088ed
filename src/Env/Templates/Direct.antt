-- ===== src/Env/Templates/Direct.antt =====
-- src/env/template-resolver.ts: what a resolved config is, told without the set of paths and the map.
use apiwright.Core.Json.{Json, JsonItems, JsonFields}
use apiwright.Env.Sets.{Within, Tokens, Tokens-Within, add_pieces-Within, add_pieces-Tokens}
use apiwright.Env.Walks.{items-Within, fields-Within}
use apiwright.Env.Templates.{pieces, collect_paths}
use apiwright.Env.Tree.{
  map_tree, map_items, map_fields, walk_strings, walk_items, walk_fields, Mapped,
}
use apiwright.Prelude.{zero, ◌≡◌, refl, ap, List, String}

-- What is in the set before a text was visited is in it after.
collect_paths-Within : (text : String) (set : List String) → Within set (collect_paths text set)
unfolding collect_paths
collect_paths-Within text set = add_pieces-Within (pieces zero text) set

-- Two mappers agree on a tree where they agree on each text whose paths were collected.
module _ {V : Type 0} (f g : String → V) (final : List String)
    (agree : (text : String) → Tokens (pieces zero text) final → f text ≡ g text) where
  mutual
    unfolding map_tree walk_strings collect_paths

    pub map_tree-agree :
        (x : Json) (set : List String)
        → Within (walk_strings collect_paths x set) final
        → map_tree f x ≡ map_tree g x
    map_tree-agree Json.null set w = refl
    map_tree-agree (Json.boolean b) set w = refl
    map_tree-agree (Json.number n) set w = refl
    map_tree-agree (Json.string text) set w = ap Mapped.replaced (
        agree text
          (Tokens-Within (pieces zero text) _ final w (add_pieces-Tokens (pieces zero text) set)))
    map_tree-agree (Json.array xs) set w = ap Mapped.array (map_items-agree xs set w)
    map_tree-agree (Json.object fs) set w = ap Mapped.object (map_fields-agree fs set w)

    map_items-agree :
        (xs : JsonItems) (set : List String)
        → Within (walk_items collect_paths xs set) final
        → map_items f xs ≡ map_items g xs
    map_items-agree JsonItems.nil set w = refl
    map_items-agree (JsonItems.cons x xs) set w =
        let mid = walk_strings collect_paths x set in
        rw
          (
            map_tree-agree x set
                (λ p h. w p (items-Within collect_paths collect_paths-Within xs mid p h)),
            map_items-agree xs mid w,
          )
          refl

    map_fields-agree :
        (fs : JsonFields) (set : List String)
        → Within (walk_fields collect_paths fs set) final
        → map_fields f fs ≡ map_fields g fs
    map_fields-agree JsonFields.end set w = refl
    map_fields-agree (JsonFields.field k x fs) set w =
        let mid = walk_strings collect_paths x set in
        rw
          (
            map_tree-agree x set
                (λ p h. w p (fields-Within collect_paths collect_paths-Within fs mid p h)),
            map_fields-agree fs mid w,
          )
          refl
