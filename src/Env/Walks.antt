-- ===== src/Env/Walks.antt =====
-- src/env/tree-walk.ts: a walk whose visitor adds to a set. `HasText` says which texts a tree has.
use apiwright.Core.Json.{Json, JsonItems, JsonFields}
use apiwright.Env.Sets.{Member, Within}
use apiwright.Env.Tree.{walk_strings, walk_items, walk_fields}
use apiwright.Prelude.{◌⊎◌, inl, inr, List, String}

mutual
  pub data HasText (text : String) : Json → Type 0 where
    at_string : HasText text (Json.string text)
    in_array : {xs : JsonItems} → HasItem text xs → HasText text (Json.array xs)
    in_object : {fs : JsonFields} → HasField text fs → HasText text (Json.object fs)

  pub data HasItem (text : String) : JsonItems → Type 0 where
    first_item : {x : Json} {xs : JsonItems} → HasText text x → HasItem text (JsonItems.cons x xs)
    later_item : {x : Json} {xs : JsonItems} → HasItem text xs → HasItem text (JsonItems.cons x xs)

  pub data HasField (text : String) : JsonFields → Type 0 where
    first_field :
        {k : String} {x : Json} {fs : JsonFields}
        → HasText text x
        → HasField text (JsonFields.field k x fs)
    later_field :
        {k : String} {x : Json} {fs : JsonFields}
        → HasField text fs
        → HasField text (JsonFields.field k x fs)

module _ (visit : String → List String → List String)
    (grows : (text : String) (set : List String) → Within set (visit text set)) where
  mutual
    unfolding walk_strings

    walk-Within : (x : Json) (set : List String) → Within set (walk_strings visit x set)
    walk-Within (Json.string text) set p h = grows text set p h
    walk-Within (Json.array xs) set p h = items-Within xs set p h
    walk-Within (Json.object fs) set p h = fields-Within fs set p h
    walk-Within _ set p h = h

    pub items-Within : (xs : JsonItems) (set : List String) → Within set (walk_items visit xs set)
    items-Within JsonItems.nil set p h = h
    items-Within (JsonItems.cons x xs) set p h =
        items-Within xs (walk_strings visit x set) p (walk-Within x set p h)

    pub fields-Within :
        (fs : JsonFields) (set : List String) → Within set (walk_fields visit fs set)
    fields-Within JsonFields.end set p h = h
    fields-Within (JsonFields.field k x fs) set p h =
        fields-Within fs (walk_strings visit x set) p (walk-Within x set p h)

  -- What the visitor adds for a text of the tree is in the set after the walk.
  module _ (text p : String) (adds : (set : List String) → Member p (visit text set)) where
    mutual
      unfolding walk_strings

      pub walk-Member :
          {x : Json} → HasText text x → (set : List String) → Member p (walk_strings visit x set)
      walk-Member at_string set = adds set
      walk-Member (in_array h) set = items-Member h set
      walk-Member (in_object h) set = fields-Member h set

      items-Member :
          {xs : JsonItems}
          → HasItem text xs
          → (set : List String) → Member p (walk_items visit xs set)
      items-Member (first_item {xs = xs} h) set = items-Within xs _ p (walk-Member h set)
      items-Member (later_item {x = x} h) set = items-Member h (walk_strings visit x set)

      fields-Member :
          {fs : JsonFields}
          → HasField text fs
          → (set : List String) → Member p (walk_fields visit fs set)
      fields-Member (first_field {fs = fs} h) set = fields-Within fs _ p (walk-Member h set)
      fields-Member (later_field {x = x} h) set = fields-Member h (walk_strings visit x set)

-- What is in the set after the walk was in it before, or the visitor added it for a text of the tree.
module _ (visit : String → List String → List String) (p : String) (P : String → Type 0)
    (only : (text : String) (set : List String)
      → Member p (visit text set)
      → Member p set ⊎ P text) where
  mutual
    unfolding walk_strings

    pub walk_from :
        (x : Json) (set : List String)
        → Member p (walk_strings visit x set)
        → Member p set ⊎ ((text : String) × HasText text x × P text)
    walk_from Json.null set m = inl m
    walk_from (Json.boolean b) set m = inl m
    walk_from (Json.number n) set m = inl m
    walk_from (Json.string text) set m = elim (only text set m) [
      | inl before ↦ inl before
      | inr added ↦ inr (text, at_string, added)
    ]
    walk_from (Json.array xs) set m = elim (items_from xs set m) [
      | inl before ↦ inl before
      | inr (text, h, added) ↦ inr (text, in_array h, added)
    ]
    walk_from (Json.object fs) set m = elim (fields_from fs set m) [
      | inl before ↦ inl before
      | inr (text, h, added) ↦ inr (text, in_object h, added)
    ]

    items_from :
        (xs : JsonItems) (set : List String)
        → Member p (walk_items visit xs set)
        → Member p set ⊎ ((text : String) × HasItem text xs × P text)
    items_from JsonItems.nil set m = inl m
    items_from (JsonItems.cons x xs) set m = elim (items_from xs (walk_strings visit x set) m) [
      | inr (text, h, added) ↦ inr (text, later_item h, added)
      | inl earlier ↦ elim (walk_from x set earlier) [
        | inl before ↦ inl before
        | inr (text, h, added) ↦ inr (text, first_item h, added)
      ]
    ]

    fields_from :
        (fs : JsonFields) (set : List String)
        → Member p (walk_fields visit fs set)
        → Member p set ⊎ ((text : String) × HasField text fs × P text)
    fields_from JsonFields.end set m = inl m
    fields_from (JsonFields.field k x fs) set m =
        elim (fields_from fs (walk_strings visit x set) m) [
          | inr (text, h, added) ↦ inr (text, later_field h, added)
          | inl earlier ↦ elim (walk_from x set earlier) [
            | inl before ↦ inl before
            | inr (text, h, added) ↦ inr (text, first_field h, added)
          ]
        ]
