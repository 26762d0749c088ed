-- ===== src/Catalog/Plan/Stamps/Declared.antt =====
-- src/test-catalog/generators: the cases of the generators that emit one case or what an endpoint declares.
use apiwright.Prelude.{
  ℕ, suc, refl, Bool, true, false, Option, none, some, List, [], ◌∷◌, String, Bool-cases, inl, inr,
  All, str_eq, ltb, get_or,
}
use apiwright.Prelude.{All-append}
use apiwright.Catalog.Case.{PaginationProbe}
use apiwright.Catalog.Endpoint.{CanonicalEndpoint, CorsConfig, PaginationConfig, DbVerification}
use apiwright.Catalog.Generators.Declared.{
  cors_case, cors_with, cors_for, cors_preflight_generator, probe_list, probe_cases, pagination_for,
  pagination_boundary_generator, db_entry, db_entries, db_verify_generator, assertion_cases,
  assertion_binder, is_valid_expect,
}
use apiwright.Catalog.Generators.Idempotency.{
  single_case, idempotency_for, idempotency_generator, put_for, put_idempotency_generator,
  parity_for, head_get_parity_generator, conditional_for, conditional_get_generator,
}
use apiwright.Catalog.Markers.{
  HttpMethod, get, put, delete, head, options, marker_for, get_idempotency, delete_idempotency,
  put_idempotency, head_get_parity, conditional_get_304, pagination_boundary,
  db_state_matches_expectation, assertion, cors_preflight,
}
use apiwright.Catalog.Generators.{build_case}
use apiwright.Catalog.Plan.Stamps.Generators.{AreCasesOf}
use apiwright.Catalog.Plan.Stamps.{IsCaseOf, method_stamp, endpoint_stamp}

idempotency_lem :
    (method : HttpMethod) (endpoint : CanonicalEndpoint)
    → AreCasesOf endpoint (idempotency_for method endpoint)
unfolding idempotency_for single_case build_case marker_for
idempotency_lem get endpoint = (method_stamp endpoint get_idempotency get_idempotency refl, tt)
idempotency_lem delete endpoint =
    (method_stamp endpoint delete_idempotency delete_idempotency refl, tt)
idempotency_lem _ endpoint = tt

put_lem :
    (method : HttpMethod) (endpoint : CanonicalEndpoint)
    → AreCasesOf endpoint (put_for method endpoint)
unfolding put_for single_case build_case marker_for
put_lem put endpoint = (method_stamp endpoint put_idempotency put_idempotency refl, tt)
put_lem _ endpoint = tt

parity_some :
    (pair_with : String) (endpoint : CanonicalEndpoint)
    → AreCasesOf endpoint (parity_for head (some pair_with) endpoint)
unfolding parity_for single_case build_case marker_for
parity_some pair_with endpoint = elim (Bool-cases (str_eq pair_with "")) [
  | inl e ↦ rw (e, parity_for) tt
  | inr e ↦ rw (e, parity_for) (method_stamp endpoint head_get_parity head_get_parity refl, tt)
]

parity_lem :
    (method : HttpMethod) (pair_with : Option String) (endpoint : CanonicalEndpoint)
    → AreCasesOf endpoint (parity_for method pair_with endpoint)
unfolding parity_for
parity_lem head none endpoint = tt
parity_lem head (some pair_with) endpoint = parity_some pair_with endpoint
parity_lem _ _ endpoint = tt

conditional_lem :
    (method : HttpMethod) (supported : Option Bool) (endpoint : CanonicalEndpoint)
    → AreCasesOf endpoint (conditional_for method supported endpoint)
unfolding conditional_for single_case build_case marker_for
conditional_lem get none endpoint = tt
conditional_lem get (some true) endpoint =
    (method_stamp endpoint conditional_get_304 conditional_get_304 refl, tt)
conditional_lem get (some false) endpoint = tt
conditional_lem _ _ endpoint = tt

cors_with_lem :
    (endpoint : CanonicalEndpoint) (cors : CorsConfig) (origins methods : List String)
    → AreCasesOf endpoint (cors_with endpoint cors origins methods)
unfolding cors_with cors_case build_case marker_for
cors_with_lem endpoint cors [] methods = tt
cors_with_lem endpoint cors (o ∷ origins) [] = tt
cors_with_lem endpoint cors (o ∷ origins) (m ∷ methods) =
    (endpoint_stamp endpoint cors_preflight cors_preflight refl, tt)

cors_lem :
    (method : HttpMethod) (cors : Option CorsConfig) (endpoint : CanonicalEndpoint)
    → AreCasesOf endpoint (cors_for method cors endpoint)
unfolding cors_for
cors_lem options none endpoint = tt
cors_lem options (some cors) endpoint =
    cors_with_lem endpoint cors cors.allow_origins cors.allow_methods
cors_lem _ _ endpoint = tt

probe_cases-IsCaseOf :
    (endpoint : CanonicalEndpoint) (pg : PaginationConfig) (i : ℕ) (probes : List PaginationProbe)
    → All (IsCaseOf endpoint) (probe_cases endpoint pg i probes)
unfolding probe_cases build_case marker_for
probe_cases-IsCaseOf endpoint pg i [] = tt
probe_cases-IsCaseOf endpoint pg i (probe ∷ probes) = (
  method_stamp endpoint pagination_boundary pagination_boundary refl,
  probe_cases-IsCaseOf endpoint pg (suc i) probes,
)

pagination_some :
    (pg : PaginationConfig) (endpoint : CanonicalEndpoint)
    → AreCasesOf endpoint (pagination_for get (some pg) endpoint)
unfolding pagination_for
pagination_some pg endpoint = elim (Bool-cases (ltb pg.max_size pg.default_size)) [
  | inl e ↦ rw (e, pagination_for) tt
  | inr e ↦
      rw (e, pagination_for)
        (probe_cases-IsCaseOf endpoint pg 0 (probe_list pg.style pg.page_param).0)
]

pagination_lem :
    (method : HttpMethod) (pagination : Option PaginationConfig) (endpoint : CanonicalEndpoint)
    → AreCasesOf endpoint (pagination_for method pagination endpoint)
unfolding pagination_for
pagination_lem get none endpoint = tt
pagination_lem get (some pg) endpoint = pagination_some pg endpoint
pagination_lem _ _ endpoint = tt

db_entry_lem :
    (endpoint : CanonicalEndpoint) (i : ℕ) (entry : DbVerification)
    → AreCasesOf endpoint (db_entry endpoint i entry)
unfolding db_entry build_case marker_for
db_entry_lem endpoint i entry = elim (Bool-cases (is_valid_expect entry.expect)) [
  | inl e ↦
      rw (e, db_entry)
        (method_stamp endpoint db_state_matches_expectation db_state_matches_expectation refl, tt)
  | inr e ↦ rw (e, db_entry) tt
]

db_entries_lem :
    (endpoint : CanonicalEndpoint) (i : ℕ) (entries : List DbVerification)
    → AreCasesOf endpoint (db_entries endpoint i entries)
unfolding db_entries
db_entries_lem endpoint i [] = tt
db_entries_lem endpoint i (entry ∷ entries) =
    All-append (IsCaseOf endpoint) (db_entry endpoint i entry).cases
      (db_entries endpoint (suc i) entries).cases (db_entry_lem endpoint i entry)
      (db_entries_lem endpoint (suc i) entries)

assertion_cases-IsCaseOf :
    (endpoint : CanonicalEndpoint) (i : ℕ) (texts : List String)
    → All (IsCaseOf endpoint) (assertion_cases endpoint i texts)
unfolding assertion_cases build_case marker_for
assertion_cases-IsCaseOf endpoint i [] = tt
assertion_cases-IsCaseOf endpoint i (text ∷ texts) = (
  method_stamp endpoint assertion assertion refl,
  assertion_cases-IsCaseOf endpoint (suc i) texts,
)

pub declared-AreCasesOf :
    (endpoint : CanonicalEndpoint)
    → AreCasesOf endpoint (idempotency_generator endpoint)
      × AreCasesOf endpoint (put_idempotency_generator endpoint)
      × AreCasesOf endpoint (head_get_parity_generator endpoint)
      × AreCasesOf endpoint (conditional_get_generator endpoint)
      × AreCasesOf endpoint (cors_preflight_generator endpoint)
      × AreCasesOf endpoint (pagination_boundary_generator endpoint)
      × AreCasesOf endpoint (db_verify_generator endpoint)
      × AreCasesOf endpoint (assertion_binder endpoint)
unfolding idempotency_generator put_idempotency_generator head_get_parity_generator
    conditional_get_generator cors_preflight_generator pagination_boundary_generator
    db_verify_generator assertion_binder
declared-AreCasesOf endpoint = (
  idempotency_lem endpoint.method endpoint,
  put_lem endpoint.method endpoint,
  parity_lem endpoint.method endpoint.pair_with endpoint,
  conditional_lem endpoint.method endpoint.etag_supported endpoint,
  cors_lem endpoint.method endpoint.cors endpoint,
  pagination_lem endpoint.method endpoint.pagination endpoint,
  db_entries_lem endpoint 0 (get_or endpoint.db_verify []),
  assertion_cases-IsCaseOf endpoint 0 (get_or endpoint.assertions []),
)
