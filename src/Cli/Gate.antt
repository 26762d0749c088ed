-- ===== src/Cli/Gate.antt =====
-- src/cli/prod-safety.ts: whether a run against production may start. The environment variables are
-- a function from names, `none` where a variable is not set, and the user's answer is an argument.
-- A decision comes with the question that was asked, if one was.
pub mod Decisions
mod Tests
use apiwright.Prelude.{
  Bool, true, false, not, Option, none, some, List, String, str_eq, any, ◌&&◌, if◌then◌else◌,
  template, [], ◌∷◌,
}
use apiwright.Catalog.Markers.{TestMarker, smoke, same_marker}

abbrev pub prod_prompt : String
prod_prompt =
    "WARNING: You are about to run non-smoke tests against prod. Type 'CONFIRM' to proceed:"

abbrev pub allow_env_var : String
allow_env_var = "ALLOW_PROD_DESTRUCTIVE"

pub data ProdSafetyDecision : Type 0 where
  allowed : ProdSafetyDecision
  blocked : String → ProdSafetyDecision

abbrev pub Env : Type 0
Env = String → Option String

-- The default CI test, `Boolean(env.CI)`: set, and not the empty text.
unfoldable pub default_is_ci : Env → Bool
default_is_ci env = elim (env "CI") [ none ↦ false | some v ↦ not (str_eq v "") ]

abbrev pub is_value : Option String → String → Bool
is_value none v = false
is_value (some s) v = str_eq s v

unfoldable pub evaluate :
    (Env → Bool) → Env → String → Bool → List TestMarker → Bool → ProdSafetyDecision × Option String
evaluate is_ci env answer prod_environment markers allow_non_smoke_in_prod =
    if not prod_environment
    then (allowed, none)
    else if not (any (λ m. not (same_marker m smoke)) markers)
    then (allowed, none)
    else if is_ci env
    then if allow_non_smoke_in_prod && is_value (env allow_env_var) "true"
      then (allowed, none)
      else (
        blocked (
            template (
              "CI fail-fast: non-smoke markers against prod require "
              ∷ "--allow-non-smoke-in-prod and " ∷ allow_env_var ∷ "=true" ∷ [])),
        none,
      )
    else if str_eq answer "CONFIRM"
    then (allowed, some prod_prompt)
    else (blocked "User did not confirm. Run aborted.", some prod_prompt)
