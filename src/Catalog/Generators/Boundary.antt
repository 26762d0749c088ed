-- ===== src/Catalog/Generators/Boundary.antt =====
-- src/test-catalog/generators/boundary-battery-generator.ts. A constraint's value is the bits of a
-- double. What the runtime computes on doubles is a record of operations; `"a".repeat` may throw.
pub mod Absent
mod Tests
use apiwright.Prelude.{
  ℕ, zero, suc, ◌+◌, ◌*◌, Bool, true, false, not, Option, none, some, List, [], ◌∷◌, ◌++◌, String,
  str_eq, any, length, template, if◌then◌else◌,
}
use apiwright.Core.Json.{Json, JsonFields, number, string, boolean, null}
use apiwright.Core.Value.{numbers_equal, same_boolean}
use apiwright.Catalog.Case.{
  ConstraintKey, BoundaryPosition, TestCase, GeneratorResult, Attempt, returned, threw, ◌>>=◌,
  boundary_params, inside, outside,
}
use apiwright.Catalog.Endpoint.{CanonicalEndpoint}
use apiwright.Catalog.Generators.{build_case, method_prod_safe, no_cases}
use apiwright.Catalog.Markers.{marker_for, boundary_battery}
use apiwright.Catalog.SchemaWalker.{FieldDescriptor, walk}

-- `n + 1`, `n - 1`, `n > 0`, `"a".repeat(n)` and the double of a small integer.
pub record DoubleOps : Type 0 where
  pub plus_one : ℕ → ℕ
  pub minus_one : ℕ → ℕ
  pub is_positive : ℕ → Bool
  pub repeat_a : ℕ → Attempt String
  pub of_integer : ℕ → ℕ

abbrev pub enum_outside_sentinel : String
enum_outside_sentinel = "__apiwright_not_in_enum__"

abbrev pub constraint_text : ConstraintKey → String
constraint_text ConstraintKey.minimum = "minimum"
constraint_text ConstraintKey.maximum = "maximum"
constraint_text ConstraintKey.min_length = "minLength"
constraint_text ConstraintKey.max_length = "maxLength"
constraint_text ConstraintKey.enum = "enum"

abbrev pub position_text : BoundaryPosition → String
position_text inside = "inside"
position_text outside = "outside"

-- Whether an element is the primitive sought; no double here is NaN, and an array or an object is no
-- primitive.
abbrev pub same_primitive : Json → Json → Bool
same_primitive (string s) (string t) = str_eq t s
same_primitive (number n) (number m) = numbers_equal m n
same_primitive (boolean b) (boolean c) = same_boolean b c
same_primitive null null = true
same_primitive _ _ = false

-- `enumValues.includes(x)`
abbrev pub includes : List Json → Json → Bool
includes values x = any (same_primitive x) values

-- What is pushed first, then the rest; an error in either is an error of both.
unfoldable pub push_all :
    Attempt (List TestCase) → Attempt (List TestCase) → Attempt (List TestCase)
push_all first second = do here ← first; rest ← second; returned (here ++ rest)

module _ (ops : DoubleOps) where
  abbrev pub integer : ℕ → Json
  integer n = number (ops.of_integer n)

  -- `while (enumValues.includes(n)) n++`, on fuel.
  unfoldable pub first_absent_from : ℕ → ℕ → List Json → ℕ
  first_absent_from zero n values = n
  first_absent_from (suc fuel) n values =
      let next = first_absent_from fuel (suc n) values in
      if includes values (integer n) then next else n

  -- As many rounds as there are values are enough: no value equals two integers.
  unfoldable pub first_absent_value : List Json → Json
  unfolding first_absent_from
  first_absent_value values =
      if not (includes values (string enum_outside_sentinel))
      then string enum_outside_sentinel
      else if not (includes values (integer 0))
      then integer 0
      else if not (includes values (boolean false))
      then boolean false
      else integer (first_absent_from (length values) 1 values)

  unfoldable pub make_case :
      CanonicalEndpoint
      → FieldDescriptor
      → ConstraintKey
      → BoundaryPosition
      → Json
      → ℕ
      → ℕ
      → TestCase
  unfolding build_case method_prod_safe marker_for
  make_case endpoint field constraint position value expected_status ordinal =
      build_case endpoint boundary_battery (marker_for boundary_battery)
        (method_prod_safe boundary_battery endpoint) ordinal
        (template (
          "Boundary battery ("
          ∷ field.path
          ∷ " "
          ∷ constraint_text constraint
          ∷ " "
          ∷ position_text position
          ∷ ") for "
          ∷ endpoint.name
          ∷ []))
        (boundary_params field.path constraint position value expected_status)

  -- The inside case and the outside case, at neighbouring ordinals.
  unfoldable pub case_pair :
      CanonicalEndpoint → FieldDescriptor → ConstraintKey → ℕ → Json → Json → List TestCase
  unfolding make_case
  case_pair endpoint field key base within beyond =
      make_case endpoint field key inside within endpoint.response.expected_status base
      ∷ make_case endpoint field key outside beyond 400 (base + 1)
      ∷ []

  -- `#buildConstraintCases` for each key, with what its constraint holds.
  unfoldable pub minimum_cases :
      CanonicalEndpoint → FieldDescriptor → ℕ → Option ℕ → Attempt (List TestCase)
  unfolding case_pair
  minimum_cases endpoint field base none = returned []
  minimum_cases endpoint field base (some m) =
      returned
        (case_pair endpoint field ConstraintKey.minimum base (number m) (number (ops.minus_one m)))

  unfoldable pub maximum_cases :
      CanonicalEndpoint → FieldDescriptor → ℕ → Option ℕ → Attempt (List TestCase)
  unfolding case_pair
  maximum_cases endpoint field base none = returned []
  maximum_cases endpoint field base (some m) =
      returned
        (case_pair endpoint field ConstraintKey.maximum base (number m) (number (ops.plus_one m)))

  unfoldable pub min_length_cases :
      CanonicalEndpoint → FieldDescriptor → ℕ → Option ℕ → Attempt (List TestCase)
  unfolding make_case case_pair
  min_length_cases endpoint field base none = returned []
  min_length_cases endpoint field base (some n) = do
    within ← ops.repeat_a n
    if ops.is_positive n
        then (ops.repeat_a (ops.minus_one n) >>= λ beyond. returned (
            case_pair endpoint field ConstraintKey.min_length base (string within) (string beyond)))
        else returned (
            make_case endpoint field ConstraintKey.min_length inside (string within)
              endpoint.response.expected_status base
            ∷ [])

  unfoldable pub max_length_cases :
      CanonicalEndpoint → FieldDescriptor → ℕ → Option ℕ → Attempt (List TestCase)
  unfolding case_pair
  max_length_cases endpoint field base none = returned []
  max_length_cases endpoint field base (some n) = do
    within ← ops.repeat_a n
    beyond ← ops.repeat_a (ops.plus_one n)
    returned
        (case_pair endpoint field ConstraintKey.max_length base (string within) (string beyond))

  unfoldable pub enum_cases :
      CanonicalEndpoint → FieldDescriptor → ℕ → Option (List Json) → Attempt (List TestCase)
  unfolding case_pair first_absent_value
  enum_cases endpoint field base none = returned []
  enum_cases endpoint field base (some []) = returned []
  enum_cases endpoint field base (some (v ∷ values)) =
      returned
        (case_pair endpoint field ConstraintKey.enum base v (first_absent_value (v ∷ values)))

  -- The loop over CONSTRAINT_KEYS for the field at `i`: each key has two ordinals of its own.
  unfoldable pub field_cases : CanonicalEndpoint → ℕ → FieldDescriptor → Attempt (List TestCase)
  unfolding push_all minimum_cases maximum_cases min_length_cases max_length_cases enum_cases
  field_cases endpoint i field =
      let base = i * 5 * 2 in
      push_all (minimum_cases endpoint field base field.constraints.minimum) (
        push_all (maximum_cases endpoint field (base + 2) field.constraints.maximum) (
          push_all (min_length_cases endpoint field (base + 4) field.constraints.min_length) (
            push_all (max_length_cases endpoint field (base + 6) field.constraints.max_length)
              (enum_cases endpoint field (base + 8) field.constraints.enum))))

  unfoldable pub all_field_cases :
      CanonicalEndpoint → ℕ → List FieldDescriptor → Attempt (List TestCase)
  unfolding push_all field_cases
  all_field_cases endpoint i [] = returned []
  all_field_cases endpoint i (field ∷ fields) =
      push_all (field_cases endpoint i field) (all_field_cases endpoint (suc i) fields)

  unfoldable pub boundary_battery_for :
      Option JsonFields → CanonicalEndpoint → Attempt GeneratorResult
  unfolding all_field_cases walk
  boundary_battery_for none endpoint = returned no_cases
  boundary_battery_for (some body_schema) endpoint = do
    let inventory = walk body_schema
    cases ← all_field_cases endpoint 0 inventory.fields
    returned (record { cases = cases; warnings = inventory.warnings })

  unfoldable pub boundary_battery_generator : CanonicalEndpoint → Attempt GeneratorResult
  unfolding boundary_battery_for
  boundary_battery_generator endpoint = boundary_battery_for endpoint.request.body_schema endpoint
