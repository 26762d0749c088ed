-- ===== src/Cli/Run.antt =====
-- src/cli/commands/run.ts: the pipeline of `apiwright run`. The collaborators of `RunCommand` are
-- arguments: what the config loader, the flag resolution, the environment loader and the test runner
-- answer. The gate is that of `Cli.Gate`. A run comes with whether the test runner was called.
pub mod Exit
mod Tests
use apiwright.Prelude.{
  ℕ, Bool, true, false, Option, none, some, List, [], ◌∷◌, String, get_or, template, join, ltb,
  decimal, if◌then◌else◌, leb,
}
use apiwright.Catalog.Markers.{TestMarker}
use apiwright.Cli.Gate.{ProdSafetyDecision, allowed, blocked, Env, evaluate}
use apiwright.Cli.ExitCodes.{
  Thrown, cli_error, config_error, run_failed, prod_safety_abort, error_to_exit_code,
}

-- A loader's answer: a value, or the errors, which may be absent.
pub data Loaded {ℓ} (A : Type ℓ) : Type ℓ where
  loaded : A → Loaded A
  not_loaded : Option (List String) → Loaded A

pub record EffectiveSettings : Type 0 where
  pub env : String
  pub markers : List TestMarker
  pub allow_non_smoke_in_prod : Bool

-- The counts that the test runner returns.
pub record TestRunOutcome : Type 0 where
  pub total : ℕ
  pub passed : ℕ
  pub failed : ℕ
  pub flaky : ℕ

pub data Ran : Type 0 where
  completed : TestRunOutcome → Ran
  rejected : Thrown → Ran

-- What `resolveEffectiveSettings` answers.
pub data Resolved : Type 0 where
  resolved : EffectiveSettings → Resolved
  unresolved : List String → Resolved

unfoldable pub config_failure : List String → Thrown
config_failure errors = cli_error config_error (join "; " errors) none

unfoldable pub fail_if_any_tests_failed : TestRunOutcome → Option Thrown
unfolding decimal
fail_if_any_tests_failed outcome =
    if leb outcome.failed 0
    then none
    else (some (
        cli_error run_failed
          (template (
            "Run had "
            ∷ decimal outcome.failed
            ∷ " failure(s) of "
            ∷ decimal outcome.total
            ∷ " planned "
            ∷ "test(s) (passed="
            ∷ decimal outcome.passed
            ∷ ", flaky="
            ∷ decimal outcome.flaky
            ∷ "). "
            ∷ "See the run report for details."
            ∷ []))
          none))

unfoldable pub delegate : Ran → Option Thrown × Bool
unfolding fail_if_any_tests_failed
delegate (rejected err) = (some err, true)
delegate (completed outcome) = (fail_if_any_tests_failed outcome, true)

module _ (is_ci : Env → Bool) (process_env : Env) (answer : String) where
  -- Step 4, `if (environment.prod)`, and step 5 after it.
  unfoldable pub gate_then_run : EffectiveSettings → Bool → Ran → Option Thrown × Bool
  unfolding evaluate delegate
  gate_then_run settings prod ran =
      if prod
      then (elim ((evaluate is_ci process_env answer prod settings.markers
          settings.allow_non_smoke_in_prod).0) [
            | allowed ↦ delegate ran
            | blocked reason ↦ (some (cli_error prod_safety_abort reason none), false)
          ])
      else delegate ran

  -- Steps 1 to 3 before them.
  unfoldable pub execute {ℓ} :
      {Config : Type ℓ}
      → Loaded Config
      → (Config → Resolved)
      → (EffectiveSettings → Loaded Bool)
      → (EffectiveSettings → Ran)
      → Option Thrown × Bool
  unfolding gate_then_run config_failure
  execute config resolve load_env run = elim config [
    | not_loaded errors ↦ (some (config_failure (get_or errors ("config load failed" ∷ []))), false)
    | loaded c ↦ elim (resolve c) [
      | unresolved errors ↦ (some (config_failure errors), false)
      | resolved settings ↦ elim (load_env settings) [
        | not_loaded errors ↦
            (some (config_failure (get_or errors ("environment load failed" ∷ []))), false)
        | loaded prod ↦ gate_then_run settings prod (run settings)
      ]
    ]
  ]

-- The exit code of a run: 0 when it returns, and otherwise the mapped one.
abbrev pub exit_code : Option Thrown → ℕ
exit_code none = 0
exit_code (some err) = error_to_exit_code err
