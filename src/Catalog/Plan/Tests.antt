-- ===== src/Catalog/Plan/Tests.antt =====
-- The plan generator on four endpoints: two that are a GET and its HEAD, one with a body, and one that
-- is invalid.
use apiwright.Prelude.{
  ◌+◌, ◌-◌, ◌≡◌, refl, true, not, none, some, List, [], ◌∷◌, String, str_eq, All, keep, length,
  if◌then◌else◌, ltb,
}
use apiwright.Core.Json.{string, array, nil, cons, object, end, field}
use apiwright.Catalog.Case.{returned, TestCaseGenerator}
use apiwright.Catalog.CaseId.{normalize, codes}
use apiwright.Catalog.CaseId.Allowed.{normalize_canonical, IsIdChar}
use apiwright.Catalog.Endpoint.{CanonicalEndpoint, PaginationStyle}
use apiwright.Catalog.Generators.Boundary.{DoubleOps}
use apiwright.Catalog.Markers.{HttpMethod, get, head, post}
use apiwright.Catalog.Plan.{Validation, generate}
use apiwright.Catalog.Plan.Cases.{generate-cases}
use apiwright.Catalog.Plan.Counts.{generate-counts}
use apiwright.Catalog.Plan.Defaults.{default_generator_order}
use apiwright.Catalog.Plan.Generated.{IsPlanned, generate-IsPlanned}
use apiwright.Catalog.Plan.Paired.{IsPaired, generate-IsPaired}
use apiwright.Catalog.Plan.Pairs.{resolve_pairs}
use apiwright.Catalog.Plan.Reference.{planned_cases}

abbrev pub small_ops : DoubleOps
small_ops = record {
  plus_one = λ n. n + 1;
  minus_one = λ n. n - 1;
  is_positive = λ n. ltb 0 n;
  repeat_a = λ n. returned (if ltb n 2 then "a" else "aa");
  of_integer = λ n. n;
}

abbrev pub plain : String → HttpMethod → String → CanonicalEndpoint
plain id method url = record {
  id = id;
  name = id;
  method = method;
  url = url;
  auth_strategy = none;
  markers = none;
  skip_cases = none;
  prod_safe = none;
  request = record { body_schema = none; body_example = none };
  response = record { expected_status = 200; schema = none; sla_ms = none };
  db_verify = none;
  assertions = none;
  pair_with = none;
  etag_supported = none;
  pagination = none;
  cors = none;
  response_variants = none;
}

abbrev pub users : CanonicalEndpoint
users = record (plain "users" get "/users") {
  etag_supported = some true;
  pagination = some (record {
    style = PaginationStyle.page;
    size_param = "size";
    page_param = some "page";
    default_size = 20;
    max_size = 100;
  });
  skip_cases = some ("pagination_boundary:size_zero" ∷ "nothing" ∷ []);
}

abbrev pub users_head : CanonicalEndpoint
users_head = record (plain "users_head" head "/users") { pair_with = some "users" }

abbrev pub create : CanonicalEndpoint
create = record (plain "create" post "/users") {
  auth_strategy = some "bearer";
  prod_safe = some true;
  request = record {
    body_schema = some (
        field "properties"
          (object
            (field "role" (object (field "enum" (array (cons (string "admin") nil)) end)) end))
          end);
    body_example = none;
  };
}

abbrev pub four : List CanonicalEndpoint
four = users ∷ users_head ∷ create ∷ plain "" get "/nowhere" ∷ []

abbrev pub has_id : CanonicalEndpoint → Validation
has_id endpoint = record {
  valid = not (str_eq endpoint.id "");
  errors = some ("id must not be empty" ∷ []);
}

abbrev default_generators : List TestCaseGenerator
default_generators = default_generator_order small_ops

four_cases : length (generate has_id default_generators ("cors_preflight" ∷ []) four).cases ≡ 24
unfolding generate default_generator_order
four_cases = refl

generate-counts_example :
    ((generate has_id default_generators [] four).endpoints_planned
      ≡ length (keep (λ e. (has_id e).valid) four))
    × ((generate has_id default_generators [] four).endpoints_planned
          + (generate has_id default_generators [] four).endpoints_skipped
        ≡ length four)
generate-counts_example = generate-counts has_id default_generators [] four

generate-cases_example :
    (generate has_id default_generators ("get_idempotency" ∷ []) four).cases
    ≡ (resolve_pairs four
        (planned_cases has_id default_generators ("get_idempotency" ∷ []) four)).cases
generate-cases_example = generate-cases has_id default_generators ("get_idempotency" ∷ []) four

generate-IsPlanned_example :
    All (IsPlanned has_id four) (generate has_id default_generators [] four).cases
generate-IsPlanned_example = generate-IsPlanned small_ops has_id [] four

generate-IsPaired_example : All (IsPaired four) (generate has_id default_generators [] four).cases
generate-IsPaired_example = generate-IsPaired has_id default_generators [] four

normalize_canonical_example :
    All IsIdChar (normalize (codes "Users_List.smoke.0"))
    × (normalize (normalize (codes "Users_List.smoke.0")) ≡ normalize (codes "Users_List.smoke.0"))
normalize_canonical_example = normalize_canonical (codes "Users_List.smoke.0")
