-- ===== src/Catalog/Plan/Stamps/Generators.antt =====
-- src/test-catalog/generators: every generator's cases are cases of its endpoint.
use apiwright.Prelude.{
  ℕ, suc, refl, Option, none, some, List, [], ◌∷◌, ◌++◌, String, Bool-cases, inl, inr, All, str_eq,
  ◌||◌, is_some, get_or,
}
use apiwright.Prelude.{All-append}
use apiwright.Core.Json.{JsonFields, end}
use apiwright.Catalog.Case.{GeneratorResult}
use apiwright.Catalog.Endpoint.{CanonicalEndpoint}
use apiwright.Catalog.Generators.Negative.{
  auth_negative_for, auth_negative_generator, body_negative_generator, omission_cases,
  type_violation_cases,
}
use apiwright.Catalog.Generators.Universal.{
  universal_generator, build_schema_case, build_sla_case, is_effectively_empty_schema,
}
use apiwright.Catalog.Markers.{
  marker_for, status_code_conformance, content_type_alignment, response_time_sla,
  response_schema_validation, auth_happy_path, no_auth_returns_401, garbage_token_returns_401,
  method_not_allowed, malformed_json_returns_400, required_field_omission_returns_400,
  type_violation_returns_400,
}
use apiwright.Catalog.Generators.{build_case, method_prod_safe, endpoint_prod_safe}
use apiwright.Catalog.Plan.Stamps.{IsCaseOf, method_stamp, endpoint_stamp}
use apiwright.Catalog.SchemaWalker.{FieldDescriptor, walk}

abbrev pub AreCasesOf : CanonicalEndpoint → GeneratorResult → Type 0
AreCasesOf endpoint result = All (IsCaseOf endpoint) result.cases

universal_schema_lem :
    (endpoint : CanonicalEndpoint) (schema : Option JsonFields)
    → All (IsCaseOf endpoint) (
        build_schema_case endpoint
          (marker_for status_code_conformance)
          (endpoint_prod_safe status_code_conformance endpoint)
          schema)
unfolding build_schema_case build_case marker_for
universal_schema_lem endpoint none = tt
universal_schema_lem endpoint (some schema) =
    elim (Bool-cases (is_effectively_empty_schema (some schema))) [
      | inl h ↦ rw h tt
      | inr h ↦
          rw h (endpoint_stamp endpoint status_code_conformance response_schema_validation refl, tt)
    ]

pub universal_generator-AreCasesOf :
    (endpoint : CanonicalEndpoint) → AreCasesOf endpoint (universal_generator endpoint)
unfolding universal_generator build_sla_case build_case marker_for
universal_generator-AreCasesOf endpoint =
    let stamp = endpoint_stamp endpoint status_code_conformance in
    (
      stamp status_code_conformance refl,
      (
        stamp content_type_alignment refl,
        All-append (IsCaseOf endpoint) _ _ (universal_schema_lem endpoint endpoint.response.schema)
            (stamp auth_happy_path refl, (stamp response_time_sla refl, tt)),
      ),
    )

auth_negative_lem :
    (endpoint : CanonicalEndpoint) (strategy : Option String)
    → AreCasesOf endpoint (auth_negative_for strategy endpoint)
unfolding auth_negative_for build_case marker_for
auth_negative_lem endpoint none = tt
auth_negative_lem endpoint (some s) =
    let stamp = method_stamp endpoint no_auth_returns_401 in
    (
      stamp no_auth_returns_401 refl,
      (stamp garbage_token_returns_401 refl, (stamp method_not_allowed refl, tt)),
    )

pub auth_negative_generator-AreCasesOf :
    (endpoint : CanonicalEndpoint) → AreCasesOf endpoint (auth_negative_generator endpoint)
unfolding auth_negative_generator
auth_negative_generator-AreCasesOf endpoint = auth_negative_lem endpoint endpoint.auth_strategy

omission_cases-IsCaseOf :
    (endpoint : CanonicalEndpoint) (i : ℕ) (fields : List FieldDescriptor)
    → All (IsCaseOf endpoint) (
        omission_cases endpoint
          (marker_for malformed_json_returns_400)
          (method_prod_safe malformed_json_returns_400 endpoint)
          i
          fields)
unfolding omission_cases build_case marker_for
omission_cases-IsCaseOf endpoint i [] = tt
omission_cases-IsCaseOf endpoint i (f ∷ fields) =
    let rest = omission_cases-IsCaseOf endpoint (suc i) fields in
    elim (Bool-cases f.required) [
      | inl e ↦
          rw (e, omission_cases)
            (
              method_stamp endpoint malformed_json_returns_400 required_field_omission_returns_400
                  refl,
              rest,
            )
      | inr e ↦ rw (e, omission_cases) rest
    ]

type_violation_cases-IsCaseOf :
    (endpoint : CanonicalEndpoint) (i : ℕ) (fields : List FieldDescriptor)
    → All (IsCaseOf endpoint) (
        type_violation_cases endpoint
          (marker_for malformed_json_returns_400)
          (method_prod_safe malformed_json_returns_400 endpoint)
          i
          fields)
unfolding type_violation_cases build_case marker_for
type_violation_cases-IsCaseOf endpoint i [] = tt
type_violation_cases-IsCaseOf endpoint i (f ∷ fields) =
    let rest = type_violation_cases-IsCaseOf endpoint (suc i) fields in
    elim (Bool-cases (str_eq f.json_type "unknown")) [
      | inl e ↦ rw (e, type_violation_cases) rest
      | inr e ↦
          rw (e, type_violation_cases)
            (method_stamp endpoint malformed_json_returns_400 type_violation_returns_400 refl, rest)
    ]

body_fields-IsCaseOf :
    (endpoint : CanonicalEndpoint) (fields : List FieldDescriptor)
    → All (IsCaseOf endpoint) (
        omission_cases endpoint
          (marker_for malformed_json_returns_400)
          (method_prod_safe malformed_json_returns_400 endpoint)
          0
          fields
        ++ type_violation_cases endpoint
            (marker_for malformed_json_returns_400)
            (method_prod_safe malformed_json_returns_400 endpoint)
            0
            fields)
body_fields-IsCaseOf endpoint fields =
    let marker = marker_for malformed_json_returns_400 in
    let prod_safe = method_prod_safe malformed_json_returns_400 endpoint in
    All-append (IsCaseOf endpoint) (omission_cases endpoint marker prod_safe 0 fields)
      (type_violation_cases endpoint marker prod_safe 0 fields)
      (omission_cases-IsCaseOf endpoint 0 fields) (type_violation_cases-IsCaseOf endpoint 0 fields)

pub body_negative_generator-AreCasesOf :
    (endpoint : CanonicalEndpoint) → AreCasesOf endpoint (body_negative_generator endpoint)
unfolding body_negative_generator build_case marker_for
body_negative_generator-AreCasesOf endpoint =
    elim (Bool-cases
      (is_some endpoint.request.body_schema || is_some endpoint.request.body_example)) [
        | inl e ↦
            rw (e, body_negative_generator)
              (
                method_stamp endpoint malformed_json_returns_400 malformed_json_returns_400 refl,
                body_fields-IsCaseOf endpoint
                    (walk (get_or endpoint.request.body_schema end)).fields,
              )
        | inr e ↦ rw (e, body_negative_generator) tt
      ]
