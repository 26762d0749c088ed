-- ===== src/Runner/Filter/Tests.antt =====
-- Filters on a small plan.
use apiwright.Prelude.{
  ◌≡◌, ◌⊎◌, refl, Bool, true, false, Option, none, some, List, [], ◌∷◌, String, str_eq, All,
  if◌then◌else◌,
}
use apiwright.Catalog.Markers.{
  TestMarker, smoke, regression, HttpMethod, get, post, is_read_method, classify_prod_safe,
  expand_marker_selection, collect, collect_one,
}
use apiwright.Runner.Filter.{
  PlannedTestCase, EndpointLoadRecord, RunFilters, apply_filters, passes, passes_found,
  passes_prod_safety, matches_path, matches_tag, matches_endpoint, none_included,
  passes_exclude_tags,
}
use apiwright.Runner.Filter.Included.{apply_filters-prod}

-- The rest of a case is its method.
abbrev case : String → TestMarker → Bool → HttpMethod → PlannedTestCase HttpMethod
case id marker prod_safe method = record {
  endpoint_id = id;
  marker = marker;
  prod_safe = prod_safe;
  rest = method;
}

abbrev plan : List (PlannedTestCase HttpMethod)
plan =
    case "users" smoke true get
    ∷ case "users" regression false get
    ∷ case "orders" smoke false post
    ∷ case "gone" smoke true get
    ∷ []

abbrev endpoints : String → Option EndpointLoadRecord
endpoints id =
    if str_eq id "users"
    then some (record { path = "api/users.yaml"; tags = some ("slow" ∷ []) })
    else if str_eq id "orders"
    then some (record { path = "api/orders.yaml"; tags = none })
    else none

abbrev all_markers : RunFilters
all_markers = record {
  markers = some ("all" ∷ []);
  path = some "api/";
  tag = none;
  endpoint = none;
  exclude_tags = none;
}

abbrev not_slow : RunFilters
not_slow = record all_markers { exclude_tags = some ("slow" ∷ []) }

outside_prod : apply_filters endpoints not_slow false plan ≡ case "orders" smoke false post ∷ []
unfolding apply_filters passes passes_found passes_prod_safety matches_path matches_tag
    matches_endpoint none_included passes_exclude_tags expand_marker_selection collect collect_one
outside_prod = refl

in_prod : apply_filters endpoints all_markers true plan ≡ case "users" smoke true get ∷ []
unfolding apply_filters passes passes_found passes_prod_safety matches_path matches_tag
    matches_endpoint none_included passes_exclude_tags expand_marker_selection collect collect_one
in_prod = refl

plan_stamped :
    All
      (λ (c : PlannedTestCase HttpMethod). c.prod_safe ≡ classify_prod_safe c.marker c.rest none)
      plan
unfolding classify_prod_safe
plan_stamped = (refl, (refl, (refl, (refl, tt))))

apply_filters-prod_example :
    All
      (λ (c : PlannedTestCase HttpMethod).
        (c.marker ≡ smoke) × ((is_read_method c.rest ≡ true) ⊎ (Option.none ≡ some true)))
      (apply_filters endpoints all_markers true plan)
apply_filters-prod_example =
    apply_filters-prod endpoints all_markers (λ c. c.rest) (λ _. none) plan plan_stamped
