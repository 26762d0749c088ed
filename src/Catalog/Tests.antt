-- ===== src/Catalog/Tests.antt =====
-- Selections and the tags of a few cases.
use apiwright.Prelude.{
  ℕ, ◌≡◌, ◌&&◌, ◌++◌, refl, none, some, List, [], ◌∷◌, String, str_eq, keep, if◌then◌else◌,
}
use apiwright.Catalog.Markers.{
  TestMarker, smoke, regression, e2e, expand_marker_selection, collect, collect_one, TestCase,
  TestPlan, EndpointMarkers, should_include, marker_filter, marker_for, boundary_battery,
  head_get_parity,
}
use apiwright.Catalog.Selection.{selected, allowed, warnings_for, marker_filter-cases}

marker_for_some : (marker_for boundary_battery ≡ regression) × (marker_for head_get_parity ≡ smoke)
unfolding marker_for
marker_for_some = (refl, refl)

abbrev selection : List String
selection = "e2e" ∷ "typo" ∷ "all" ∷ []

all_three : expand_marker_selection selection ≡ smoke ∷ regression ∷ e2e ∷ []
unfolding expand_marker_selection collect collect_one
all_three = refl

abbrev case : String → TestMarker → TestCase ℕ
case id marker = record { endpoint_id = id; marker = marker; rest = 0 }

abbrev plan : TestPlan ℕ
plan = record {
  cases = case "users" smoke ∷ case "orders" regression ∷ [];
  endpoints_planned = 2;
  endpoints_skipped = 1;
  warnings = "an old one" ∷ [];
}

abbrev only_smoke : EndpointMarkers
only_smoke id = if str_eq id "orders" then some (smoke ∷ []) else none

declared : (marker_filter plan selection (some only_smoke)).cases ≡ case "users" smoke ∷ []
unfolding marker_filter should_include expand_marker_selection collect collect_one
declared = refl

unknown : (marker_filter plan ("typo" ∷ []) none).cases ≡ []
unfolding marker_filter expand_marker_selection collect collect_one
unknown = refl

marker_filter-cases_example :
    ((marker_filter plan ("typo" ∷ []) (some only_smoke)).cases
      ≡ keep (λ c. selected ("typo" ∷ []) c.marker && allowed (some only_smoke) c) plan.cases)
    × ((marker_filter plan ("typo" ∷ []) (some only_smoke)).endpoints_planned ≡ 2)
    × ((marker_filter plan ("typo" ∷ []) (some only_smoke)).endpoints_skipped ≡ 1)
    × ((marker_filter plan ("typo" ∷ []) (some only_smoke)).warnings
        ≡ plan.warnings ++ warnings_for (expand_marker_selection ("typo" ∷ [])) ("typo" ∷ []))
marker_filter-cases_example = marker_filter-cases plan ("typo" ∷ []) (some only_smoke)
