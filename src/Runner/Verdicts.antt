-- ===== src/Runner/Verdicts.antt =====
-- src/runner/execute/verdicts.ts: the verdicts over one or two responses of the conditional GET, the
-- second DELETE and the CORS preflight. Response headers are a function from their lower-case names,
-- `none` where a header is absent. The text operations of the JavaScript runtime are arguments:
-- `toUpperCase`, `toLowerCase`, and `split(",")` with `trim` of each part.
pub mod Passing
pub mod Preflight
mod Tests
use apiwright.Prelude.{
  ℕ, Bool, true, false, not, Option, none, some, List, [], ◌∷◌, String, str_eq, keep, any, get_or,
  template, join, decimal, ◌==◌, ◌||◌, if◌then◌else◌,
}
use apiwright.Core.Value.{Value, undefined, null, string}

pub data VerdictResult : Type 0 where
  pass : VerdictResult
  fail : (reason : String) → VerdictResult

pub record ResponseRecord : Type 0 where
  pub status : ℕ
  pub headers : String → Option String
  pub body : Value

pub record CorsPreflightParams : Type 0 where
  pub allow_origins : List String
  pub allow_methods : List String
  pub allow_headers : List String

abbrev pub is_head_body_empty : Value → Bool
is_head_body_empty null = true
is_head_body_empty undefined = true
is_head_body_empty (string s) = str_eq s ""
is_head_body_empty _ = false

unfoldable pub delete_idempotency_verdict : ResponseRecord → ℕ → VerdictResult
unfolding decimal
delete_idempotency_verdict second expected =
    if second.status == expected
    then pass
    else (fail (
        template (
          "delete_idempotency: second DELETE returned "
          ∷ decimal second.status
          ∷ ", expected "
          ∷ decimal expected
          ∷ [])))

-- `secondEtag !== firstEtag`, where the second is a text.
abbrev pub same_text : Option String → String → Bool
same_text none s = false
same_text (some t) s = str_eq s t

-- The checks once the second response is known to carry `second_etag`.
unfoldable pub etag_verdict : ResponseRecord → ResponseRecord → String → VerdictResult
etag_verdict first second second_etag =
    if str_eq second_etag ""
    then fail "conditional_get_304: 304 response missing ETag header"
    else if not (same_text (first.headers "etag") second_etag)
    then (fail (
        template (
          "conditional_get_304: 304 ETag '"
          ∷ second_etag
          ∷ "' does not match first response ETag '"
          ∷ get_or (first.headers "etag") "undefined"
          ∷ "'"
          ∷ [])))
    else if not (is_head_body_empty second.body)
    then fail "conditional_get_304: 304 response body is not empty"
    else pass

unfoldable pub conditional_get_304_verdict : ResponseRecord → ResponseRecord → VerdictResult
unfolding etag_verdict decimal
conditional_get_304_verdict first second =
    if not (second.status == 304)
    then (fail (
        template (
          "conditional_get_304: expected 304 Not Modified on second request, got "
          ∷ decimal second.status
          ∷ [])))
    else elim (second.headers "etag") [
      | none ↦ fail "conditional_get_304: 304 response missing ETag header"
      | some second_etag ↦ etag_verdict first second second_etag
    ]

-- `actualSet.has(folded)`
abbrev pub among : String → List String → Bool
among s texts = any (λ t. str_eq t s) texts

abbrev pub sent_origin : List String → String
sent_origin [] = ""
sent_origin (origin ∷ _) = origin

abbrev pub is_wildcard_config : List String → Bool
is_wildcard_config (origin ∷ []) = str_eq origin "*"
is_wildcard_config _ = false

unfoldable pub origin_accepted : List String → String → Bool
origin_accepted allow_origins acao =
    if is_wildcard_config allow_origins
    then str_eq acao "*" || str_eq acao (sent_origin allow_origins)
    else str_eq acao (sent_origin allow_origins)

module _ (split_trimmed : String → List String) where
  -- The parts of a header's value, folded; empty parts are dropped.
  abbrev pub folded_parts : (String → String) → String → List String
  folded_parts fold actual = keep (λ s. not (str_eq s "")) (folded (split_trimmed actual))
    where
      folded : List String → List String
      folded [] = []
      folded (s ∷ rest) = fold s ∷ folded rest

  unfoldable pub csv_set_missing : String → List String → (String → String) → List String
  csv_set_missing actual expected fold =
      keep (λ entry. not (among (fold entry) (folded_parts fold actual))) expected

  module _ (to_upper to_lower : String → String) where
    -- Steps 6 and 7.
    unfoldable pub allow_headers_verdict : ResponseRecord → List String → VerdictResult
    unfolding csv_set_missing
    allow_headers_verdict response allow_headers =
        elim (response.headers "access-control-allow-headers") [
          | none ↦ fail "cors_preflight: response missing Access-Control-Allow-Headers header"
          | some acah ↦ elim (csv_set_missing acah allow_headers to_lower) [
            | [] ↦ pass
            | m ∷ missing ↦ fail (
                template (
                  "cors_preflight: Access-Control-Allow-Headers missing required: "
                  ∷ join "," (m ∷ missing)
                  ∷ []))
          ]
        ]

    -- Steps 4 and 5, and the end of the check where no headers are declared.
    unfoldable pub allow_methods_verdict : ResponseRecord → CorsPreflightParams → VerdictResult
    unfolding csv_set_missing allow_headers_verdict
    allow_methods_verdict response params = elim (response.headers "access-control-allow-methods") [
      | none ↦ fail "cors_preflight: response missing Access-Control-Allow-Methods header"
      | some acam ↦ elim (csv_set_missing acam params.allow_methods to_upper) [
        | m ∷ missing ↦ fail (
            template (
              "cors_preflight: Access-Control-Allow-Methods missing required: "
              ∷ join "," (m ∷ missing)
              ∷ []))
        | [] ↦ elim params.allow_headers [
          | [] ↦ pass
          | h ∷ hs ↦ allow_headers_verdict response (h ∷ hs)
        ]
      ]
    ]

    -- Steps 1 to 3.
    unfoldable pub cors_preflight_verdict : ResponseRecord → CorsPreflightParams → VerdictResult
    unfolding origin_accepted allow_methods_verdict decimal
    cors_preflight_verdict response params =
        if not (response.status == 200 || response.status == 204)
        then (fail (
            template
              ("cors_preflight: expected status 200 or 204, got " ∷ decimal response.status ∷ [])))
        else elim (response.headers "access-control-allow-origin") [
          | none ↦ fail "cors_preflight: response missing Access-Control-Allow-Origin header"
          | some acao ↦
              if not (origin_accepted params.allow_origins acao)
              then (fail (
                  template (
                    "cors_preflight: Access-Control-Allow-Origin '"
                    ∷ acao
                    ∷ "' doesn't match expected '"
                    ∷ sent_origin params.allow_origins
                    ∷ "'"
                    ∷ [])))
              else allow_methods_verdict response params
        ]
