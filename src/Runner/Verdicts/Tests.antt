-- ===== src/Runner/Verdicts/Tests.antt =====
-- Verdicts on a few responses, with texts that are folded to themselves or to one text.
use apiwright.Prelude.{ℕ, ◌≡◌, ◌↔◌, refl, none, some, List, [], ◌∷◌, String, str_eq, if◌then◌else◌}
use apiwright.Core.Value.{Value, undefined, string}
use apiwright.Runner.Verdicts.{
  pass, fail, ResponseRecord, CorsPreflightParams, delete_idempotency_verdict,
  conditional_get_304_verdict, etag_verdict, cors_preflight_verdict, origin_accepted,
  csv_set_missing, allow_methods_verdict, allow_headers_verdict,
}
use apiwright.Runner.Verdicts.Passing.{IsUnchanged, conditional_get_304_verdict-pass_iff}
use apiwright.Runner.Verdicts.Preflight.{IsPreflight, cors_preflight_verdict-pass_iff}

abbrev tagged : ℕ → String → Value → ResponseRecord
tagged status etag body = record {
  status = status;
  headers = λ name. if str_eq name "etag" then some etag else none;
  body = body;
}

unchanged :
    conditional_get_304_verdict (tagged 200 "v1" (string "x")) (tagged 304 "v1" undefined) ≡ pass
unfolding conditional_get_304_verdict etag_verdict
unchanged = refl

changed :
    conditional_get_304_verdict (tagged 200 "v1" (string "x")) (tagged 304 "v2" undefined)
    ≡ fail "conditional_get_304: 304 ETag 'v2' does not match first response ETag 'v1'"
unfolding conditional_get_304_verdict etag_verdict
changed = refl

not_deleted :
    delete_idempotency_verdict (tagged 500 "" undefined) 404
    ≡ fail "delete_idempotency: second DELETE returned 500, expected 404"
unfolding delete_idempotency_verdict
not_deleted = refl

conditional_get_304_verdict-pass_iff_example :
    (conditional_get_304_verdict (tagged 200 "v1" (string "x")) (tagged 304 "v1" undefined) ≡ pass)
    ↔ IsUnchanged (tagged 200 "v1" (string "x")) (tagged 304 "v1" undefined)
conditional_get_304_verdict-pass_iff_example =
    conditional_get_304_verdict-pass_iff (tagged 200 "v1" (string "x")) (tagged 304 "v1" undefined)

abbrev parts : String → List String
parts text = if str_eq text "GET, put" then "GET" ∷ "put" ∷ [] else text ∷ []

abbrev upper : String → String
upper text = if str_eq text "put" then "PUT" else text

abbrev preflight : ResponseRecord
preflight = record {
  status = 204;
  headers = λ name.
      if str_eq name "access-control-allow-origin"
      then some "https://a.example"
      else if str_eq name "access-control-allow-methods"
      then some "GET, put"
      else none;
  body = undefined;
}

abbrev declared : List String → CorsPreflightParams
declared headers = record {
  allow_origins = "https://a.example" ∷ "https://b.example" ∷ [];
  allow_methods = "PUT" ∷ [];
  allow_headers = headers;
}

answered : cors_preflight_verdict parts upper (λ s. s) preflight (declared []) ≡ pass
unfolding cors_preflight_verdict origin_accepted allow_methods_verdict csv_set_missing
answered = refl

no_headers :
    cors_preflight_verdict parts upper (λ s. s) preflight (declared ("x-token" ∷ []))
    ≡ fail "cors_preflight: response missing Access-Control-Allow-Headers header"
unfolding cors_preflight_verdict origin_accepted allow_methods_verdict allow_headers_verdict
    csv_set_missing
no_headers = refl

cors_preflight_verdict-pass_iff_example :
    (cors_preflight_verdict parts upper (λ s. s) preflight (declared []) ≡ pass)
    ↔ IsPreflight parts upper (λ s. s) preflight (declared [])
cors_preflight_verdict-pass_iff_example =
    cors_preflight_verdict-pass_iff parts upper (λ s. s) preflight (declared [])
