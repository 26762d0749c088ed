-- ===== src/Catalog/Selection.antt =====
-- What a marker selection selects, and which cases may run against production.
use mathlib.Core.Path.{fun_ext}
use mathlib.Core.List.{append-nil}
use apiwright.Prelude.{
  ◌≡◌, refl, sym, ap, ◌∙◌, ◌⊎◌, ◌↔◌, inl, inr, Bool, true, false, not, ◌&&◌, ◌||◌, Bool-cases,
  Option, none, some, List, [], ◌∷◌, ◌++◌, String, str_eq, eq_iff, or_false, arith, keep, any,
}
use apiwright.Catalog.Markers.{
  TestMarker, smoke, regression, e2e, HttpMethod, same_marker, is_read_method, classify_prod_safe,
  MarkerSet, empty, collect_one, collect, expand_marker_selection, has_marker, TestCase, TestPlan,
  EndpointMarkers, declared_includes, should_include, marker_filter, marker_order,
  no_markers_warning,
}

abbrev pub marker_name : TestMarker → String
marker_name smoke = "smoke"
marker_name regression = "regression"
marker_name e2e = "e2e"

-- One selector selects the marker of its name, and "all" selects smoke and regression.
abbrev pub selects : String → TestMarker → Bool
selects sel m = str_eq sel (marker_name m) || (str_eq sel "all" && not (same_marker m e2e))

abbrev pub selected : List String → TestMarker → Bool
selected selection m = any (λ sel. selects sel m) selection

-- The texts that the loop compares with are different ones.
distinct : (sel s t : String) → str_eq s t ≡ false → str_eq sel s ≡ true → str_eq sel t ≡ false
distinct sel s t e h = let same : sel ≡ s = (eq_iff sel s).0 h in rw same e

collect_one-selects :
    (sel : String) (collected : MarkerSet) (m : TestMarker)
    → collect_one sel collected m ≡ (selects sel m || collected m)
unfolding collect_one
collect_one-selects sel collected m = elim (Bool-cases (str_eq sel "all")) [
  | inl is_all ↦ all_case is_all m
  | inr other ↦ elim (Bool-cases (str_eq sel "smoke")) [
    | inl is_smoke ↦ smoke_case other is_smoke m
    | inr other2 ↦ elim (Bool-cases (str_eq sel "regression")) [
      | inl is_regression ↦ regression_case other other2 is_regression m
      | inr other3 ↦ rest_case other other2 other3 m
    ]
  ]
]
  where
    all_case :
        str_eq sel "all" ≡ true
        → (k : TestMarker) → collect_one sel collected k ≡ (selects sel k || collected k)
    all_case e smoke = rw (e, distinct sel "all" "smoke" refl e)
    all_case e regression = rw (e, distinct sel "all" "regression" refl e)
    all_case e e2e = rw (e, distinct sel "all" "e2e" refl e)

    smoke_case :
        str_eq sel "all" ≡ false
        → str_eq sel "smoke" ≡ true
        → (k : TestMarker) → collect_one sel collected k ≡ (selects sel k || collected k)
    smoke_case a e smoke = rw (a, e)
    smoke_case a e regression = rw (a, e, distinct sel "smoke" "regression" refl e)
    smoke_case a e e2e = rw (a, e, distinct sel "smoke" "e2e" refl e)

    regression_case :
        str_eq sel "all" ≡ false
        → str_eq sel "smoke" ≡ false
        → str_eq sel "regression" ≡ true
        → (k : TestMarker) → collect_one sel collected k ≡ (selects sel k || collected k)
    regression_case a b e smoke = rw (a, b, e)
    regression_case a b e regression = rw (a, b, e)
    regression_case a b e e2e = rw (a, b, e, distinct sel "regression" "e2e" refl e)

    rest_case :
        str_eq sel "all" ≡ false
        → str_eq sel "smoke" ≡ false
        → str_eq sel "regression" ≡ false
        → (k : TestMarker) → collect_one sel collected k ≡ (selects sel k || collected k)
    rest_case a b c smoke = elim (Bool-cases (str_eq sel "e2e")) [
      | inl e ↦ rw (a, b, c, e)
      | inr e ↦ rw (a, b, c, e)
    ]
    rest_case a b c regression = elim (Bool-cases (str_eq sel "e2e")) [
      | inl e ↦ rw (a, b, c, e)
      | inr e ↦ rw (a, b, c, e)
    ]
    rest_case a b c e2e = elim (Bool-cases (str_eq sel "e2e")) [
      | inl e ↦ rw (a, b, c, e)
      | inr e ↦ rw (a, b, c, e)
    ]

collect-selected :
    (selection : List String) (collected : MarkerSet) (m : TestMarker)
    → collect selection collected m ≡ (selected selection m || collected m)
unfolding collect
collect-selected [] collected m = refl
collect-selected (sel ∷ sels) collected m = ground (
  arith,
  collect-selected sels (collect_one sel collected) m,
  collect_one-selects sel collected m,
)

keep_order :
    (collected : MarkerSet) (m : TestMarker)
    → has_marker (keep collected marker_order) m ≡ collected m
keep_order collected smoke = ground arith
keep_order collected regression = ground arith
keep_order collected e2e = ground arith

-- The expanded selection holds a marker exactly when one of the selectors names it, or is "all" and
-- the marker is smoke or regression; unknown selectors select nothing.
pub expand_marker_selection-selected :
    (selection : List String) (m : TestMarker)
    → has_marker (expand_marker_selection selection) m ≡ selected selection m
unfolding expand_marker_selection
expand_marker_selection-selected selection m =
    keep_order (collect selection empty) m ∙ collect-selected selection empty m ∙ or_false _

-- What one endpoint's declared markers allow.
abbrev pub allowed : {C : Type 0} → Option EndpointMarkers → TestCase C → Bool
allowed none c = true
allowed (some declared) c = declared_includes (declared c.endpoint_id) c.marker

-- The warnings that the filter adds.
abbrev pub warnings_for : List TestMarker → List String → List String
warnings_for [] selection = no_markers_warning selection ∷ []
warnings_for (m ∷ ms) selection = []

module _ {C : Type 0} where
  keep_ext :
      (p q : TestCase C → Bool) (cs : List (TestCase C))
      → ((c : TestCase C) → p c ≡ q c)
      → keep p cs ≡ keep q cs
  keep_ext p q cs h = ap (λ f. keep f cs) (fun_ext h)

  keep_none :
      (p : TestCase C → Bool) (cs : List (TestCase C))
      → ((c : TestCase C) → p c ≡ false)
      → keep p cs ≡ []
  keep_none p [] h = refl
  keep_none p (c ∷ cs) h = rw (h c) (keep_none p cs h)

  should_include-allowed :
      (ms : List TestMarker) (endpoint_markers : Option EndpointMarkers) (c : TestCase C)
      → should_include ms endpoint_markers c
        ≡ (has_marker ms c.marker && allowed endpoint_markers c)
  unfolding should_include
  should_include-allowed ms none c = ground arith
  should_include-allowed ms (some declared) c = ground arith

  filter_with :
      (plan : TestPlan C) (selection : List String) (endpoint_markers : Option EndpointMarkers)
      (ms : List TestMarker)
      → expand_marker_selection selection ≡ ms
      → ((c : TestCase C) → has_marker ms c.marker ≡ selected selection c.marker)
      → (marker_filter plan selection endpoint_markers).cases
        ≡ keep (λ c. selected selection c.marker && allowed endpoint_markers c) plan.cases
  unfolding marker_filter
  filter_with plan selection endpoint_markers [] e h =
      rw (e, marker_filter) (sym (keep_none _ plan.cases (λ c. rw (← h c))))
  filter_with plan selection endpoint_markers (m ∷ ms) e h =
      rw (e, marker_filter)
        (keep_ext _ _ plan.cases (λ c.
          should_include-allowed (m ∷ ms) endpoint_markers c
          ∙ ap (λ b. b && allowed endpoint_markers c) (h c)))

  warnings_with :
      (plan : TestPlan C) (selection : List String) (endpoint_markers : Option EndpointMarkers)
      (ms : List TestMarker)
      → expand_marker_selection selection ≡ ms
      → (marker_filter plan selection endpoint_markers).warnings
        ≡ plan.warnings ++ warnings_for ms selection
  unfolding marker_filter
  warnings_with plan selection endpoint_markers [] e = rw (e, marker_filter) refl
  warnings_with plan selection endpoint_markers (m ∷ ms) e =
      rw (e, marker_filter) (sym (append-nil plan.warnings))

  -- The filtered plan has, in their order, exactly the cases whose marker is selected and which the
  -- declared markers of their endpoint allow (an endpoint with none allows all), also when no
  -- selector is known; the counts stay, and one warning is
  -- added exactly when no selector is known.
  pub marker_filter-cases :
      (plan : TestPlan C) (selection : List String) (endpoint_markers : Option EndpointMarkers)
      → ((marker_filter plan selection endpoint_markers).cases
          ≡ keep (λ c. selected selection c.marker && allowed endpoint_markers c) plan.cases)
        × ((marker_filter plan selection endpoint_markers).endpoints_planned
            ≡ plan.endpoints_planned)
        × ((marker_filter plan selection endpoint_markers).endpoints_skipped
            ≡ plan.endpoints_skipped)
        × ((marker_filter plan selection endpoint_markers).warnings
            ≡ plan.warnings ++ warnings_for (expand_marker_selection selection) selection)
  marker_filter-cases plan selection endpoint_markers = (
    filter_with plan selection endpoint_markers (expand_marker_selection selection) refl
        (λ c. expand_marker_selection-selected selection c.marker),
    (unfold marker_filter in ground arith),
    (unfold marker_filter in ground arith),
    warnings_with plan selection endpoint_markers (expand_marker_selection selection) refl,
  )

-- A case is tagged safe for production exactly when it is a smoke case and its method only reads or
-- its endpoint declares `prod_safe: true`.
pub classify_prod_safe_iff :
    (marker : TestMarker) (method : HttpMethod) (flag : Option Bool)
    → (classify_prod_safe marker method flag ≡ true)
      ↔ ((marker ≡ smoke) × ((is_read_method method ≡ true) ⊎ (flag ≡ some true)))
unfolding classify_prod_safe
classify_prod_safe_iff marker method flag = (λ e. (ground arith, ground arith), λ h. ground arith)
