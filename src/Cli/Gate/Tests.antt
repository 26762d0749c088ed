-- ===== src/Cli/Gate/Tests.antt =====
-- The gate in CI and outside.
use apiwright.Prelude.{
  ◌≡◌, ◌↔◌, refl, true, false, none, some, List, [], ◌∷◌, str_eq, if◌then◌else◌,
}
use apiwright.Catalog.Markers.{TestMarker, smoke, regression}
use apiwright.Cli.Gate.{allowed, blocked, Env, default_is_ci, evaluate, prod_prompt, allow_env_var}
use apiwright.Cli.Gate.Decisions.{MayStart, evaluate-allowed_iff}

abbrev ci_env : Env
ci_env name =
    if str_eq name "CI" then some "1" else if str_eq name allow_env_var then some "true" else none

abbrev markers : List TestMarker
markers = smoke ∷ regression ∷ []

ci_allowed : evaluate default_is_ci ci_env "" true markers true ≡ (allowed, none)
unfolding evaluate default_is_ci
ci_allowed = refl

confirmed :
    evaluate default_is_ci (λ _. none) "CONFIRM" true markers false ≡ (allowed, some prod_prompt)
unfolding evaluate default_is_ci
confirmed = refl

lower_case :
    evaluate default_is_ci (λ _. none) "confirm" true markers true
    ≡ (blocked "User did not confirm. Run aborted.", some prod_prompt)
unfolding evaluate default_is_ci
lower_case = refl

evaluate-allowed_iff_example :
    ((evaluate default_is_ci ci_env "no" true markers false).0 ≡ allowed)
    ↔ MayStart default_is_ci ci_env "no" true markers false
evaluate-allowed_iff_example = evaluate-allowed_iff default_is_ci ci_env "no" true markers false
