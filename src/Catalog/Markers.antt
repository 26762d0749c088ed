-- ===== src/Catalog/Markers.antt =====
-- src/test-catalog/marker-classifier.ts, prod-safety-classifier.ts and marker-filter.ts.
-- A marker selector is a text: what is no marker and not "all" is dropped at run time. A
-- `Set<TestMarker>` is its characteristic function.
use apiwright.Prelude.{
  ℕ, Bool, true, false, not, Option, none, some, List, [], ◌∷◌, ◌++◌, String, str_eq, keep, any,
  template, join, ◌||◌, if◌then◌else◌,
}

pub data TestMarker : Type 0 where
  smoke regression e2e : TestMarker

pub data HttpMethod : Type 0 where
  get post put patch delete head options : HttpMethod

pub data GeneratedTestType : Type 0 where
  status_code_conformance content_type_alignment response_time_sla response_schema_validation
        auth_happy_path no_auth_returns_401 garbage_token_returns_401 method_not_allowed
        malformed_json_returns_400 required_field_omission_returns_400 type_violation_returns_400
        boundary_battery get_idempotency delete_idempotency put_idempotency head_get_parity
        conditional_get_304 pagination_boundary db_state_matches_expectation assertion
        cors_preflight :
      GeneratedTestType

-- MARKER_MAP and `markerFor`
unfoldable pub marker_for : GeneratedTestType → TestMarker
marker_for status_code_conformance = smoke
marker_for content_type_alignment = smoke
marker_for response_time_sla = smoke
marker_for response_schema_validation = smoke
marker_for auth_happy_path = smoke
marker_for no_auth_returns_401 = regression
marker_for garbage_token_returns_401 = regression
marker_for method_not_allowed = regression
marker_for malformed_json_returns_400 = regression
marker_for required_field_omission_returns_400 = regression
marker_for type_violation_returns_400 = regression
marker_for boundary_battery = regression
marker_for get_idempotency = regression
marker_for delete_idempotency = regression
marker_for put_idempotency = regression
marker_for head_get_parity = smoke
marker_for conditional_get_304 = regression
marker_for pagination_boundary = regression
marker_for db_state_matches_expectation = regression
marker_for assertion = smoke
marker_for cors_preflight = smoke

abbrev pub same_marker : TestMarker → TestMarker → Bool
same_marker smoke smoke = true
same_marker regression regression = true
same_marker e2e e2e = true
same_marker _ _ = false

-- READ_METHODS
abbrev pub is_read_method : HttpMethod → Bool
is_read_method get = true
is_read_method head = true
is_read_method options = true
is_read_method _ = false

-- `endpoint_prod_safe` is `none` where the endpoint does not declare the flag.
unfoldable pub classify_prod_safe : TestMarker → HttpMethod → Option Bool → Bool
classify_prod_safe marker method endpoint_prod_safe =
    if not (same_marker marker smoke)
    then false
    else if is_read_method method
    then true
    else elim endpoint_prod_safe [ none ↦ false | some b ↦ b ]

abbrev pub MarkerSet : Type 0
MarkerSet = TestMarker → Bool

abbrev pub empty : MarkerSet
empty _ = false

abbrev pub add : TestMarker → MarkerSet → MarkerSet
add m collected k = same_marker m k || collected k

abbrev pub marker_order : List TestMarker
marker_order = smoke ∷ regression ∷ e2e ∷ []

-- One round of the loop of `expandMarkerSelection`.
unfoldable pub collect_one : String → MarkerSet → MarkerSet
collect_one sel collected =
    if str_eq sel "all"
    then add regression (add smoke collected)
    else if str_eq sel "smoke"
    then add smoke collected
    else if str_eq sel "regression"
    then add regression collected
    else if str_eq sel "e2e"
    then add e2e collected
    else collected

unfoldable pub collect : List String → MarkerSet → MarkerSet
unfolding collect_one
collect [] collected = collected
collect (sel ∷ sels) collected = collect sels (collect_one sel collected)

unfoldable pub expand_marker_selection : List String → List TestMarker
unfolding collect
expand_marker_selection selection =
    let collected = collect selection empty in keep collected marker_order

abbrev pub has_marker : List TestMarker → TestMarker → Bool
has_marker ms m = any (λ k. same_marker k m) ms

-- What `MarkerFilter` reads of a case and of a plan; the rest of a case is carried.
pub record TestCase (C : Type 0) : Type 0 where
  pub endpoint_id : String
  pub marker : TestMarker
  pub rest : C

pub record TestPlan (C : Type 0) : Type 0 where
  pub cases : List (TestCase C)
  pub endpoints_planned : ℕ
  pub endpoints_skipped : ℕ
  pub warnings : List String

unfoldable pub no_markers_warning : List String → String
no_markers_warning selection =
    template
      ("No recognized markers in selection [" ∷ join "," selection ∷ "]; zero cases selected" ∷ [])

-- The map from endpoint ids to declared markers, `none` where the key is absent.
abbrev pub EndpointMarkers : Type 0
EndpointMarkers = String → Option (List TestMarker)

abbrev pub declared_includes : Option (List TestMarker) → TestMarker → Bool
declared_includes none m = true
declared_includes (some []) m = true
declared_includes (some (d ∷ ds)) m = has_marker (d ∷ ds) m

module _ {C : Type 0} where
  unfoldable pub should_include : List TestMarker → Option EndpointMarkers → TestCase C → Bool
  should_include concrete endpoint_markers c =
      if not (has_marker concrete c.marker) then false else elim endpoint_markers [
        | none ↦ true
        | some declared ↦ declared_includes (declared c.endpoint_id) c.marker
      ]

  unfoldable pub marker_filter : TestPlan C → List String → Option EndpointMarkers → TestPlan C
  unfolding should_include expand_marker_selection
  marker_filter plan selection endpoint_markers = elim (expand_marker_selection selection) [
    | [] ↦ record plan { cases = []; warnings = plan.warnings ++ no_markers_warning selection ∷ [] }
    | m ∷ ms ↦ record plan { cases = keep (should_include (m ∷ ms) endpoint_markers) plan.cases }
  ]
