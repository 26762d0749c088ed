-- ===== src/Catalog/Generators/Negative.antt =====
-- src/test-catalog/generators/auth-negative-generator.ts and body-negative-generator.ts. A schema's
-- `type` that names a property of `Object.prototype` is outside the table of wrong types.
use apiwright.Prelude.{
  ℕ, suc, Bool, not, Option, none, some, List, [], ◌∷◌, ◌++◌, String, str_eq, template, is_some,
  get_or, ◌||◌, if◌then◌else◌,
}
use apiwright.Core.Json.{end}
use apiwright.Catalog.Case.{
  TestCase, GeneratorResult, auth_strip_params, garbage_token_params, method_not_allowed_params,
  malformed_json_params, required_field_omission_params, type_violation_params, method_text,
}
use apiwright.Catalog.Endpoint.{CanonicalEndpoint}
use apiwright.Catalog.Generators.{build_case, method_prod_safe, title_for, no_cases}
use apiwright.Catalog.Markers.{
  HttpMethod, TestMarker, marker_for, no_auth_returns_401, garbage_token_returns_401,
  method_not_allowed, malformed_json_returns_400, required_field_omission_returns_400,
  type_violation_returns_400,
}
use apiwright.Catalog.SchemaWalker.{FieldDescriptor, walk}

abbrev pub substitute_method_precedence : List HttpMethod
substitute_method_precedence =
    HttpMethod.post ∷ HttpMethod.put ∷ HttpMethod.patch ∷ HttpMethod.delete ∷ HttpMethod.get
    ∷ HttpMethod.options ∷ HttpMethod.head ∷ []

-- Methods are texts in the program, compared by `!==`.
unfoldable pub first_other : HttpMethod → List HttpMethod → HttpMethod
first_other declared [] = HttpMethod.get
first_other declared (method ∷ methods) =
    if not (str_eq (method_text method) (method_text declared))
    then method
    else first_other declared methods

unfoldable pub pick_substitute_method : HttpMethod → HttpMethod
unfolding first_other
pick_substitute_method declared = first_other declared substitute_method_precedence

unfoldable pub auth_negative_for : Option String → CanonicalEndpoint → GeneratorResult
unfolding build_case method_prod_safe marker_for pick_substitute_method
auth_negative_for none endpoint = no_cases
auth_negative_for (some auth_strategy) endpoint =
    let marker = marker_for no_auth_returns_401 in
    let prod_safe = method_prod_safe no_auth_returns_401 endpoint in
    record {
      cases =
          build_case endpoint no_auth_returns_401 marker prod_safe 0
            (title_for "No auth returns 401" endpoint) (auth_strip_params auth_strategy 401)
          ∷ build_case endpoint garbage_token_returns_401 marker prod_safe 0
              (title_for "Garbage token returns 401" endpoint)
              (garbage_token_params auth_strategy "not-a-valid-token" 401)
          ∷ build_case endpoint method_not_allowed marker prod_safe 0
              (title_for "Method not allowed" endpoint)
              (method_not_allowed_params (pick_substitute_method endpoint.method) 405)
          ∷ [];
      warnings = [];
    }

unfoldable pub auth_negative_generator : CanonicalEndpoint → GeneratorResult
unfolding auth_negative_for
auth_negative_generator endpoint = auth_negative_for endpoint.auth_strategy endpoint

-- `WRONG_TYPE_MAP[jsonType] ?? "string"`
unfoldable pub wrong_type_for : String → String
wrong_type_for json_type = if str_eq json_type "string" then "number" else "string"

-- The loop over the required fields; `fields.indexOf(field)` is the field's own position.
unfoldable pub omission_cases :
    CanonicalEndpoint → TestMarker → Bool → ℕ → List FieldDescriptor → List TestCase
unfolding build_case
omission_cases endpoint marker prod_safe i [] = []
omission_cases endpoint marker prod_safe i (field ∷ fields) =
    let rest = omission_cases endpoint marker prod_safe (suc i) fields in
    if not field.required
    then rest
    else build_case endpoint required_field_omission_returns_400 marker prod_safe i
        (template
          ("Required field omission (" ∷ field.path ∷ ") returns 400 for " ∷ endpoint.name ∷ []))
        (required_field_omission_params field.path 400)
      ∷ rest

unfoldable pub type_violation_cases :
    CanonicalEndpoint → TestMarker → Bool → ℕ → List FieldDescriptor → List TestCase
unfolding build_case wrong_type_for
type_violation_cases endpoint marker prod_safe i [] = []
type_violation_cases endpoint marker prod_safe i (field ∷ fields) =
    let rest = type_violation_cases endpoint marker prod_safe (suc i) fields in
    if str_eq field.json_type "unknown"
    then rest
    else build_case endpoint type_violation_returns_400 marker prod_safe i
        (template (
          "Type violation (" ∷ field.path ∷ ": " ∷ field.json_type ∷ ") returns 400 for "
          ∷ endpoint.name ∷ []))
        (type_violation_params field.path field.json_type (wrong_type_for field.json_type) 400)
      ∷ rest

unfoldable pub body_negative_generator : CanonicalEndpoint → GeneratorResult
unfolding build_case method_prod_safe marker_for walk omission_cases type_violation_cases
body_negative_generator endpoint =
    if not (is_some endpoint.request.body_schema || is_some endpoint.request.body_example)
    then no_cases
    else let marker = marker_for malformed_json_returns_400 in
      let prod_safe = method_prod_safe malformed_json_returns_400 endpoint in
      let inventory = walk (get_or endpoint.request.body_schema end) in
      record {
        cases =
            build_case endpoint malformed_json_returns_400 marker prod_safe 0
              (title_for "Malformed JSON returns 400" endpoint)
              (malformed_json_params "{\"unterminated\":" 400)
            ∷ (omission_cases endpoint marker prod_safe 0 inventory.fields
                ++ type_violation_cases endpoint marker prod_safe 0 inventory.fields);
        warnings = inventory.warnings;
      }
