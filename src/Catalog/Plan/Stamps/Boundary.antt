-- ===== src/Catalog/Plan/Stamps/Boundary.antt =====
-- src/test-catalog/generators/boundary-battery-generator.ts: the cases of the boundary battery.
use apiwright.Prelude.{
  ℕ, suc, ◌*◌, ◌+◌, ◌≡◌, ◌⊎◌, refl, Option, none, some, List, [], ◌∷◌, String, Bool-cases, inl, inr,
  All, All-append,
}
use apiwright.Core.Json.{Json, JsonFields, number, string}
use apiwright.Catalog.Case.{
  TestCase, Attempt, returned, threw, ◌>>=◌, ConstraintKey, BoundaryPosition, inside, outside,
}
use apiwright.Catalog.Endpoint.{CanonicalEndpoint}
use apiwright.Catalog.Generators.{build_case}
use apiwright.Catalog.Generators.Boundary.{
  DoubleOps, push_all, first_absent_value, make_case, case_pair, minimum_cases, maximum_cases,
  min_length_cases, max_length_cases, enum_cases, field_cases, all_field_cases,
  boundary_battery_for, boundary_battery_generator,
}
use apiwright.Catalog.Markers.{marker_for, boundary_battery}
use apiwright.Catalog.Plan.Stamps.{IsCaseOf, method_stamp}
use apiwright.Catalog.Plan.Stamps.Generators.{AreCasesOf}
use apiwright.Catalog.SchemaWalker.{FieldDescriptor, walk}

-- What is returned, if something is, has the predicate.
abbrev pub Returns : {A : Type 0} → (A → Type 0) → Attempt A → Type 0
Returns P (returned a) = P a
Returns P (threw message) = Unit

Attempt-cases :
    {A : Type 0} (m : Attempt A)
    → ((a : A) × (m ≡ returned a)) ⊎ ((message : String) × (m ≡ threw message))
Attempt-cases (returned a) = inl (a, refl)
Attempt-cases (threw message) = inr (message, refl)

push_all-Returns :
    (P : TestCase → Type 0) (first second : Attempt (List TestCase))
    → Returns (All P) first
    → Returns (All P) second
    → Returns (All P) (push_all first second)
unfolding push_all
push_all-Returns P (returned xs) (returned ys) h k = All-append P xs ys h k
push_all-Returns P (returned xs) (threw message) h k = tt
push_all-Returns P (threw message) second h k = tt

module _ (ops : DoubleOps) (endpoint : CanonicalEndpoint) where
  abbrev AreCases : List TestCase → Type 0
  AreCases cases = All (IsCaseOf endpoint) cases

  make_case-IsCaseOf :
      (field : FieldDescriptor) (key : ConstraintKey) (position : BoundaryPosition) (value : Json)
      (status n : ℕ)
      → IsCaseOf endpoint (make_case ops endpoint field key position value status n)
  unfolding make_case build_case marker_for
  make_case-IsCaseOf field key position value status n =
      method_stamp endpoint boundary_battery boundary_battery refl

  case_pair-AreCases :
      (field : FieldDescriptor) (key : ConstraintKey) (base : ℕ) (within beyond : Json)
      → AreCases (case_pair ops endpoint field key base within beyond)
  unfolding case_pair
  case_pair-AreCases field key base within beyond = (
    make_case-IsCaseOf field key inside within endpoint.response.expected_status base,
    (make_case-IsCaseOf field key outside beyond 400 (base + 1), tt),
  )

  min_length_lem :
      (field : FieldDescriptor) (base n : ℕ)
      → Returns AreCases (min_length_cases ops endpoint field base (some n))
  unfolding min_length_cases
  min_length_lem field base n = elim (Attempt-cases (ops.repeat_a n)) [
    | inr (m, e) ↦ rw (e, min_length_cases) tt
    | inl (w, e) ↦ elim (Bool-cases (ops.is_positive n)) [
      | inr f ↦
          rw (e, f, min_length_cases)
            (
              make_case-IsCaseOf field ConstraintKey.min_length inside (string w)
                  endpoint.response.expected_status base,
              tt,
            )
      | inl f ↦ elim (Attempt-cases (ops.repeat_a (ops.minus_one n))) [
        | inr (m, g) ↦ rw (e, f, g, min_length_cases) tt
        | inl (b, g) ↦
            rw (e, f, g, min_length_cases)
              (case_pair-AreCases field ConstraintKey.min_length base (string w) (string b))
      ]
    ]
  ]

  max_length_lem :
      (field : FieldDescriptor) (base n : ℕ)
      → Returns AreCases (max_length_cases ops endpoint field base (some n))
  unfolding max_length_cases
  max_length_lem field base n = elim (Attempt-cases (ops.repeat_a n)) [
    | inr (m, e) ↦ rw (e, max_length_cases) tt
    | inl (w, e) ↦ elim (Attempt-cases (ops.repeat_a (ops.plus_one n))) [
      | inr (m, g) ↦ rw (e, g, max_length_cases) tt
      | inl (b, g) ↦
          rw (e, g, max_length_cases)
            (case_pair-AreCases field ConstraintKey.max_length base (string w) (string b))
    ]
  ]

  number_cases_lem :
      (field : FieldDescriptor) (base : ℕ) (n : Option ℕ)
      → Returns AreCases (minimum_cases ops endpoint field base n)
        × Returns AreCases (maximum_cases ops endpoint field base n)
        × Returns AreCases (min_length_cases ops endpoint field base n)
        × Returns AreCases (max_length_cases ops endpoint field base n)
  unfolding minimum_cases maximum_cases min_length_cases max_length_cases
  number_cases_lem field base none = (tt, tt, tt, tt)
  number_cases_lem field base (some n) = (
    case_pair-AreCases field ConstraintKey.minimum base (number n) (number (ops.minus_one n)),
    case_pair-AreCases field ConstraintKey.maximum base (number n) (number (ops.plus_one n)),
    min_length_lem field base n,
    max_length_lem field base n,
  )

  enum_cases_lem :
      (field : FieldDescriptor) (base : ℕ) (values : Option (List Json))
      → Returns AreCases (enum_cases ops endpoint field base values)
  unfolding enum_cases
  enum_cases_lem field base none = tt
  enum_cases_lem field base (some []) = tt
  enum_cases_lem field base (some (v ∷ values)) =
      case_pair-AreCases field ConstraintKey.enum base v (first_absent_value ops (v ∷ values))

  field_cases_lem :
      (i : ℕ) (field : FieldDescriptor) → Returns AreCases (field_cases ops endpoint i field)
  unfolding field_cases
  field_cases_lem i field =
      let base = i * 5 * 2 in
      let join = push_all-Returns (IsCaseOf endpoint) in
      let at_min_length = (number_cases_lem field (base + 4) field.constraints.min_length).2 in
      let at_max_length = (number_cases_lem field (base + 6) field.constraints.max_length).3 in
      join (minimum_cases ops endpoint field base field.constraints.minimum) _
        (number_cases_lem field base field.constraints.minimum).0
        (join (maximum_cases ops endpoint field (base + 2) field.constraints.maximum) _
          (number_cases_lem field (base + 2) field.constraints.maximum).1
          (join (min_length_cases ops endpoint field (base + 4) field.constraints.min_length) _
            at_min_length
            (join (max_length_cases ops endpoint field (base + 6) field.constraints.max_length)
              (enum_cases ops endpoint field (base + 8) field.constraints.enum) at_max_length
              (enum_cases_lem field (base + 8) field.constraints.enum))))

  all_field_cases_lem :
      (i : ℕ) (fields : List FieldDescriptor)
      → Returns AreCases (all_field_cases ops endpoint i fields)
  unfolding all_field_cases
  all_field_cases_lem i [] = tt
  all_field_cases_lem i (field ∷ fields) =
      push_all-Returns (IsCaseOf endpoint) (field_cases ops endpoint i field)
        (all_field_cases ops endpoint (suc i) fields) (field_cases_lem i field)
        (all_field_cases_lem (suc i) fields)

  wrap :
      (m : Attempt (List TestCase)) (warnings : List String)
      → Returns AreCases m
      → Returns
          (AreCasesOf endpoint)
          (m >>= λ cases. returned (record { cases = cases; warnings = warnings }))
  wrap (returned cases) warnings h = h
  wrap (threw message) warnings h = tt

  boundary_battery_lem :
      (schema : Option JsonFields)
      → Returns (AreCasesOf endpoint) (boundary_battery_for ops schema endpoint)
  unfolding boundary_battery_for
  boundary_battery_lem none = tt
  boundary_battery_lem (some schema) =
      wrap (all_field_cases ops endpoint 0 (walk schema).fields) (walk schema).warnings
        (all_field_cases_lem 0 (walk schema).fields)

  pub boundary_battery_generator-Returns :
      Returns (AreCasesOf endpoint) (boundary_battery_generator ops endpoint)
  unfolding boundary_battery_generator
  boundary_battery_generator-Returns = boundary_battery_lem endpoint.request.body_schema
