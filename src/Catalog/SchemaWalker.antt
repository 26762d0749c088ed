-- ===== src/Catalog/SchemaWalker.antt =====
-- src/test-catalog/schema-walker.ts. `left` is how many levels the walk may still enter: the maximal
-- depth plus one, less the depth.
use apiwright.Prelude.{
  ℕ, zero, suc, Bool, true, false, Option, none, some, List, [], ◌∷◌, ◌++◌, String, str_eq, get_or,
  template, decimal, if◌then◌else◌,
}
use apiwright.Core.Json.{
  Json, JsonFields, fields_of, json_property, as_number, as_string, as_array, string, object,
}

pub record FieldConstraints : Type 0 where
  pub minimum : Option ℕ
  pub maximum : Option ℕ
  pub min_length : Option ℕ
  pub max_length : Option ℕ
  pub enum : Option (List Json)

pub record FieldDescriptor : Type 0 where
  pub path : String
  pub json_type : String
  pub required : Bool
  pub constraints : FieldConstraints

pub record SchemaInventory : Type 0 where
  pub fields : List FieldDescriptor
  pub warnings : List String

abbrev pub no_constraints : FieldConstraints
no_constraints = record {
  minimum = none;
  maximum = none;
  min_length = none;
  max_length = none;
  enum = none;
}

unfoldable pub extract_constraints : JsonFields → FieldConstraints
extract_constraints node = record {
  minimum = as_number (json_property "minimum" node);
  maximum = as_number (json_property "maximum" node);
  min_length = as_number (json_property "minLength" node);
  max_length = as_number (json_property "maxLength" node);
  enum = as_array (json_property "enum" node);
}

unfoldable pub describe_field : Json → String → Bool → FieldDescriptor
unfolding extract_constraints
describe_field (object child) child_path is_required = record {
  path = child_path;
  json_type = get_or (as_string (json_property "type" child)) "unknown";
  required = is_required;
  constraints = extract_constraints child;
}
describe_field _ child_path is_required = record {
  path = child_path;
  json_type = "unknown";
  required = is_required;
  constraints = no_constraints;
}

-- `required.includes(key)`
abbrev pub includes_key : String → List Json → Bool
includes_key key [] = false
includes_key key (string s ∷ xs) = if str_eq s key then true else includes_key key xs
includes_key key (_ ∷ xs) = includes_key key xs

-- `path ? before : after`
abbrev pub child_path : String → String → String
child_path path key = if str_eq path "" then key else template (path ∷ "." ∷ key ∷ [])

unfoldable pub depth_warning : ℕ → String → String
depth_warning max_depth path = template (
    "Schema depth exceeded "
    ∷ decimal max_depth
    ∷ " at '"
    ∷ path
    ∷ "'; deeper fields not enumerated"
    ∷ [])

-- The loop of `#visitProperties` over the keys; `visit` walks a child.
unfoldable pub visit_keys :
    (Json → String → SchemaInventory → SchemaInventory)
    → List Json
    → String
    → List (String × Json)
    → SchemaInventory
    → SchemaInventory
unfolding describe_field
visit_keys visit required path [] inventory = inventory
visit_keys visit required path ((key, child) ∷ rest) inventory =
    let here = child_path path key in
    let descriptor = describe_field child here (includes_key key required) in
    let found = record inventory { fields = inventory.fields ++ descriptor ∷ [] } in
    visit_keys visit required path rest (visit child here found)

-- `#visitArrayItems`: the test on `type` is implied by the one on `items`.
unfoldable pub visit_array_items :
    (Json → String → SchemaInventory → SchemaInventory)
    → Option Json
    → String
    → SchemaInventory
    → SchemaInventory
visit_array_items visit none path inventory = inventory
visit_array_items visit (some items) path inventory =
    visit items (if str_eq path "" then "[]" else template (path ∷ "[]" ∷ [])) inventory

-- `#visit` on an object, once its depth is allowed.
unfoldable pub visit_object :
    (Json → String → SchemaInventory → SchemaInventory)
    → JsonFields
    → Option Json
    → String
    → SchemaInventory
    → SchemaInventory
unfolding visit_keys visit_array_items
visit_object visit node (some (object properties)) path inventory =
    visit_keys visit (get_or (as_array (json_property "required" node)) []) path
      (fields_of properties) inventory
visit_object visit node _ path inventory =
    visit_array_items visit (json_property "items" node) path inventory

unfoldable pub visit : ℕ → ℕ → Json → String → SchemaInventory → SchemaInventory
unfolding visit_object depth_warning
visit max_depth zero node path inventory = record inventory {
  warnings = inventory.warnings ++ depth_warning max_depth path ∷ [];
}
visit max_depth (suc left) (object node) path inventory =
    visit_object (visit max_depth left) node (json_property "properties" node) path inventory
visit max_depth (suc left) _ path inventory = inventory

-- `walk`, with `maxDepth` given.
unfoldable pub walk_to : ℕ → JsonFields → SchemaInventory
unfolding visit
walk_to max_depth schema =
    visit max_depth (suc max_depth) (object schema) "" (record { fields = []; warnings = [] })

abbrev pub walker_max_depth : ℕ
walker_max_depth = 64

unfoldable pub walk : JsonFields → SchemaInventory
unfolding walk_to
walk = walk_to walker_max_depth
