-- ===== src/Env/Tree.antt =====
-- src/env/tree-walk.ts. A rebuilt tree marks the values that stand for its texts.
use apiwright.Core.Json.{Json, JsonItems, JsonFields}
use apiwright.Prelude.{ℕ, Bool, String}

mutual
  pub data Mapped (V : Type 0) : Type 0 where
    null : Mapped V
    boolean : Bool → Mapped V
    number : ℕ → Mapped V
    replaced : V → Mapped V
    array : MappedItems V → Mapped V
    object : MappedFields V → Mapped V

  pub data MappedItems (V : Type 0) : Type 0 where
    nil : MappedItems V
    cons : Mapped V → MappedItems V → MappedItems V

  pub data MappedFields (V : Type 0) : Type 0 where
    end : MappedFields V
    field : String → Mapped V → MappedFields V → MappedFields V

-- The visitor changes a state, here the one that it is given and gives back.
module _ {S : Type 0} (visit : String → S → S) where
  unfoldable mutual
    pub walk_strings : Json → S → S
    walk_strings (Json.string text) s = visit text s
    walk_strings (Json.array xs) s = walk_items xs s
    walk_strings (Json.object fs) s = walk_fields fs s
    walk_strings _ s = s

    pub walk_items : JsonItems → S → S
    walk_items JsonItems.nil s = s
    walk_items (JsonItems.cons x xs) s = walk_items xs (walk_strings x s)

    pub walk_fields : JsonFields → S → S
    walk_fields JsonFields.end s = s
    walk_fields (JsonFields.field k x fs) s = walk_fields fs (walk_strings x s)

module _ {V : Type 0} (map_string : String → V) where
  unfoldable mutual
    pub map_tree : Json → Mapped V
    map_tree Json.null = null
    map_tree (Json.boolean b) = boolean b
    map_tree (Json.number n) = number n
    map_tree (Json.string text) = replaced (map_string text)
    map_tree (Json.array xs) = array (map_items xs)
    map_tree (Json.object fs) = object (map_fields fs)

    pub map_items : JsonItems → MappedItems V
    map_items JsonItems.nil = nil
    map_items (JsonItems.cons x xs) = cons (map_tree x) (map_items xs)

    pub map_fields : JsonFields → MappedFields V
    map_fields JsonFields.end = end
    map_fields (JsonFields.field k x fs) = field k (map_tree x) (map_fields fs)
