-- ===== src/Catalog/Endpoint.antt =====
-- The canonical endpoint of src/core/canonical-model.ts, as far as the plan generator reads it. An
-- absent field is `none`. A field's value has its declared type, also where the endpoint is later
-- found invalid. Statuses and page sizes are the integers that ENDPOINT_META_SCHEMA demands.
use apiwright.Prelude.{ℕ, Bool, Option, List, String}
use apiwright.Core.Json.{Json, JsonFields}
use apiwright.Catalog.Markers.{HttpMethod, TestMarker}

pub record CanonicalRequest : Type 0 where
  pub body_schema : Option JsonFields
  pub body_example : Option Json

pub record CanonicalResponse : Type 0 where
  pub expected_status : ℕ
  pub schema : Option JsonFields
  -- The bits of a number.
  pub sla_ms : Option ℕ

-- `expect` is a text: the generator checks it again.
pub record DbVerification : Type 0 where
  pub connection : String
  pub query : String
  pub expect : String
  pub fields : Option JsonFields
  pub query_id : Option String

pub data PaginationStyle : Type 0 where
  page offset cursor : PaginationStyle

pub record PaginationConfig : Type 0 where
  pub style : PaginationStyle
  pub size_param : String
  pub page_param : Option String
  pub default_size : ℕ
  pub max_size : ℕ

pub record CorsConfig : Type 0 where
  pub allow_origins : List String
  pub allow_methods : List String
  pub allow_headers : List String

-- Of `response_variants` only the keys are read.
pub record CanonicalEndpoint : Type 0 where
  pub id : String
  pub name : String
  pub method : HttpMethod
  pub url : String
  pub auth_strategy : Option String
  pub markers : Option (List TestMarker)
  pub skip_cases : Option (List String)
  pub prod_safe : Option Bool
  pub request : CanonicalRequest
  pub response : CanonicalResponse
  pub db_verify : Option (List DbVerification)
  pub assertions : Option (List String)
  pub pair_with : Option String
  pub etag_supported : Option Bool
  pub pagination : Option PaginationConfig
  pub cors : Option CorsConfig
  pub response_variants : Option (List String)
