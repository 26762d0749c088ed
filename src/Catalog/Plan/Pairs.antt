-- ===== src/Catalog/Plan/Pairs.antt =====
-- src/test-catalog/test-plan-generator.ts: `#resolvePairs`, after the skips.
use apiwright.Prelude.{
  not, Option, none, some, List, [], ◌∷◌, String, str_eq, template, ◌&&◌, if◌then◌else◌,
}
use apiwright.Catalog.Case.{TestCase, TestCaseParams, head_get_parity_params, method_text}
use apiwright.Catalog.Endpoint.{CanonicalEndpoint}

-- The index by identifier, looked up: a later endpoint replaces an earlier one, and one without an
-- identifier is not set.
unfoldable pub by_id : List CanonicalEndpoint → String → Option CanonicalEndpoint
by_id [] k = none
by_id (endpoint ∷ endpoints) k = elim (by_id endpoints k) [
  | some later ↦ some later
  | none ↦ if str_eq endpoint.id k && not (str_eq endpoint.id "") then some endpoint else none
]

pub data Resolution : Type 0 where
  kept : TestCase → Resolution
  dropped : String → Resolution

unfoldable pub unresolved_warning : TestCase → String → String
unresolved_warning c paired_id = template (
    "Endpoint '" ∷ c.endpoint_id ∷ "': head_get_parity — unresolved pair_with id" ∷ " '" ∷ paired_id
    ∷ "'; case dropped." ∷ [])

unfoldable pub method_warning : TestCase → String → CanonicalEndpoint → String
method_warning c paired_id paired = template (
    "Endpoint '"
    ∷ c.endpoint_id
    ∷ "': head_get_parity — pair_with target"
    ∷ " '"
    ∷ paired_id
    ∷ "' has method "
    ∷ method_text paired.method
    ∷ ", expected GET; case dropped."
    ∷ [])

unfoldable pub url_warning : TestCase → String → CanonicalEndpoint → CanonicalEndpoint → String
url_warning c paired_id paired head_endpoint = template (
    "Endpoint '" ∷ c.endpoint_id ∷ "': pair_with target '" ∷ paired_id ∷ "' URL" ∷ " '" ∷ paired.url
    ∷ "' does not match HEAD URL '" ∷ head_endpoint.url ∷ "';" ∷ " head_get_parity case dropped."
    ∷ [])

unfoldable pub with_url : TestCase → String → CanonicalEndpoint → Resolution
with_url c paired_id paired =
    kept (record c { params = head_get_parity_params paired_id paired.url })

-- The tests in order, once the pair is found.
unfoldable pub resolve_found :
    TestCase → String → CanonicalEndpoint → Option CanonicalEndpoint → Resolution
unfolding method_warning url_warning with_url
resolve_found c paired_id paired none =
    if not (str_eq (method_text paired.method) "GET")
    then dropped (method_warning c paired_id paired)
    else with_url c paired_id paired
resolve_found c paired_id paired (some head_endpoint) =
    if not (str_eq (method_text paired.method) "GET")
    then dropped (method_warning c paired_id paired)
    else if not (str_eq paired.url head_endpoint.url)
    then dropped (url_warning c paired_id paired head_endpoint)
    else with_url c paired_id paired

pub record Resolved : Type 0 where
  pub cases : List TestCase
  pub warnings : List String

unfoldable pub add_resolution : Resolution → Resolved → Resolved
add_resolution (kept c) rest = record rest { cases = c ∷ rest.cases }
add_resolution (dropped warning) rest = record rest { warnings = warning ∷ rest.warnings }

module _ (endpoints : List CanonicalEndpoint) where
  unfoldable pub resolve_parity : TestCase → String → Resolution
  unfolding by_id resolve_found unresolved_warning
  resolve_parity c paired_id = elim (by_id endpoints paired_id) [
    | none ↦ dropped (unresolved_warning c paired_id)
    | some paired ↦ resolve_found c paired_id paired (by_id endpoints c.endpoint_id)
  ]

  -- One round of the loop; a case of another kind passes unchanged.
  unfoldable pub resolve_case : TestCase → TestCaseParams → Resolution
  unfolding resolve_parity
  resolve_case c (head_get_parity_params paired_id _) = resolve_parity c paired_id
  resolve_case c _ = kept c

  unfoldable pub resolve_pairs : List TestCase → Resolved
  unfolding resolve_case add_resolution
  resolve_pairs [] = record { cases = []; warnings = [] }
  resolve_pairs (c ∷ cases) = add_resolution (resolve_case c c.params) (resolve_pairs cases)
