-- ===== src/Catalog/Case.antt =====
-- src/test-catalog/types.ts and test-case-params.ts: what the generators hand on. A case's identifier
-- is the list of its code points.
use apiwright.Prelude.{ℕ, Bool, Option, List, String}
use apiwright.Core.Json.{Json, JsonFields}
use apiwright.Catalog.Endpoint.{PaginationStyle, CanonicalEndpoint}
use apiwright.Catalog.Markers.{
  HttpMethod, TestMarker, GeneratedTestType, status_code_conformance, content_type_alignment,
  response_time_sla, response_schema_validation, auth_happy_path, no_auth_returns_401,
  garbage_token_returns_401, method_not_allowed, malformed_json_returns_400,
  required_field_omission_returns_400, type_violation_returns_400, boundary_battery,
  get_idempotency, delete_idempotency, put_idempotency, head_get_parity, conditional_get_304,
  pagination_boundary, db_state_matches_expectation, assertion, cors_preflight,
}

pub data BoundaryPosition : Type 0 where
  inside outside : BoundaryPosition

pub data ConstraintKey : Type 0 where
  minimum maximum min_length max_length enum : ConstraintKey

pub data PaginationProbe : Type 0 where
  size_zero size_max size_max_plus_one page_negative : PaginationProbe

pub data PutCompare : Type 0 where
  body_equality db_state : PutCompare

-- One constructor per interface of the union, its fields in their order after `kind`.
pub data TestCaseParams : Type 0 where
  status_code_params : (expected_status : ℕ) → TestCaseParams
  content_type_params : TestCaseParams
  response_time_params : (sla_ms : Option ℕ) (sla_delegated : Bool) → TestCaseParams
  response_schema_params : (schema : JsonFields) → TestCaseParams
  auth_happy_path_params : (auth_strategy : Option String) (unauthenticated : Bool) → TestCaseParams
  auth_strip_params : (auth_strategy : String) (expected_status : ℕ) → TestCaseParams
  garbage_token_params :
      (auth_strategy garbage_token : String) (expected_status : ℕ) → TestCaseParams
  method_not_allowed_params :
      (substitute_method : HttpMethod) (expected_status : ℕ) → TestCaseParams
  malformed_json_params : (malformed_body : String) (expected_status : ℕ) → TestCaseParams
  required_field_omission_params : (omitted_field : String) (expected_status : ℕ) → TestCaseParams
  type_violation_params :
      (field original_type wrong_type : String) (expected_status : ℕ) → TestCaseParams
  boundary_params :
      (field : String) (constraint : ConstraintKey) (position : BoundaryPosition) (value : Json)
      (expected_status : ℕ)
      → TestCaseParams
  get_idempotency_params : TestCaseParams
  delete_idempotency_params : (second_delete_status : ℕ) → TestCaseParams
  db_state_params :
      (connection query expect : String) (fields : Option JsonFields) (query_id : Option String)
      → TestCaseParams
  put_idempotency_params : (compare : PutCompare) → TestCaseParams
  head_get_parity_params : (paired_get_endpoint_id paired_get_url : String) → TestCaseParams
  conditional_get_params : TestCaseParams
  pagination_boundary_params :
      (style : PaginationStyle) (size_param : String) (page_param : Option String)
      (default_size max_size : ℕ) (probe : PaginationProbe) (expected_status : ℕ)
      → TestCaseParams
  assertion_params : (assertion : String) → TestCaseParams
  cors_preflight_params : (allow_origins allow_methods allow_headers : List String) → TestCaseParams

-- `params.kind`
abbrev pub kind_of : TestCaseParams → GeneratedTestType
kind_of (status_code_params _) = status_code_conformance
kind_of content_type_params = content_type_alignment
kind_of (response_time_params _ _) = response_time_sla
kind_of (response_schema_params _) = response_schema_validation
kind_of (auth_happy_path_params _ _) = auth_happy_path
kind_of (auth_strip_params _ _) = no_auth_returns_401
kind_of (garbage_token_params _ _ _) = garbage_token_returns_401
kind_of (method_not_allowed_params _ _) = method_not_allowed
kind_of (malformed_json_params _ _) = malformed_json_returns_400
kind_of (required_field_omission_params _ _) = required_field_omission_returns_400
kind_of (type_violation_params _ _ _ _) = type_violation_returns_400
kind_of (boundary_params _ _ _ _ _) = boundary_battery
kind_of get_idempotency_params = get_idempotency
kind_of (delete_idempotency_params _) = delete_idempotency
kind_of (db_state_params _ _ _ _ _) = db_state_matches_expectation
kind_of (put_idempotency_params _) = put_idempotency
kind_of (head_get_parity_params _ _) = head_get_parity
kind_of conditional_get_params = conditional_get_304
kind_of (pagination_boundary_params _ _ _ _ _ _ _) = pagination_boundary
kind_of (assertion_params _) = assertion
kind_of (cors_preflight_params _ _ _) = cors_preflight

-- The literals of `GeneratedTestType`, and "assertion".
abbrev pub type_text : GeneratedTestType → String
type_text status_code_conformance = "status_code_conformance"
type_text content_type_alignment = "content_type_alignment"
type_text response_time_sla = "response_time_sla"
type_text response_schema_validation = "response_schema_validation"
type_text auth_happy_path = "auth_happy_path"
type_text no_auth_returns_401 = "no_auth_returns_401"
type_text garbage_token_returns_401 = "garbage_token_returns_401"
type_text method_not_allowed = "method_not_allowed"
type_text malformed_json_returns_400 = "malformed_json_returns_400"
type_text required_field_omission_returns_400 = "required_field_omission_returns_400"
type_text type_violation_returns_400 = "type_violation_returns_400"
type_text boundary_battery = "boundary_battery"
type_text get_idempotency = "get_idempotency"
type_text delete_idempotency = "delete_idempotency"
type_text put_idempotency = "put_idempotency"
type_text head_get_parity = "head_get_parity"
type_text conditional_get_304 = "conditional_get_304"
type_text pagination_boundary = "pagination_boundary"
type_text db_state_matches_expectation = "db_state_matches_expectation"
type_text assertion = "assertion"
type_text cors_preflight = "cors_preflight"

abbrev pub probe_text : PaginationProbe → String
probe_text size_zero = "size_zero"
probe_text size_max = "size_max"
probe_text size_max_plus_one = "size_max_plus_one"
probe_text page_negative = "page_negative"

abbrev pub method_text : HttpMethod → String
method_text HttpMethod.get = "GET"
method_text HttpMethod.post = "POST"
method_text HttpMethod.put = "PUT"
method_text HttpMethod.patch = "PATCH"
method_text HttpMethod.delete = "DELETE"
method_text HttpMethod.head = "HEAD"
method_text HttpMethod.options = "OPTIONS"

pub record TestCase : Type 0 where
  pub id : List ℕ
  pub endpoint_id : String
  pub type : GeneratedTestType
  pub marker : TestMarker
  pub title : String
  pub prod_safe : Bool
  pub params : TestCaseParams

pub record GeneratorResult : Type 0 where
  pub cases : List TestCase
  pub warnings : List String

-- What a generator does on an endpoint: it returns, or it throws an error with a message.
pub data Attempt (A : Type 0) : Type 0 where
  returned : A → Attempt A
  threw : String → Attempt A

infixl 5 ◌>>=◌
abbrev pub ◌>>=◌ : {A B : Type 0} → Attempt A → (A → Attempt B) → Attempt B
returned a >>= f = f a
threw message >>= f = threw message

abbrev pub TestCaseGenerator : Type 0
TestCaseGenerator = CanonicalEndpoint → Attempt GeneratorResult
