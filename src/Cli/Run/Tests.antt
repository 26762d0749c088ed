-- ===== src/Cli/Run/Tests.antt =====
-- Runs of the pipeline.
use apiwright.Prelude.{ℕ, ◌≡◌, ◌≢◌, ◌↔◌, refl, ap, Bool, true, false, none, [], ◌∷◌}
use apiwright.Catalog.Markers.{smoke, regression}
use apiwright.Cli.Gate.{Env, default_is_ci, evaluate}
use apiwright.Cli.ExitCodes.{Thrown, error_to_exit_code}
use apiwright.Cli.Run.{
  Loaded, loaded, not_loaded, EffectiveSettings, TestRunOutcome, Ran, completed, rejected, Resolved,
  resolved, execute, exit_code, gate_then_run, delegate, fail_if_any_tests_failed, config_failure,
}
use apiwright.Cli.Run.Exit.{MayRun, IsReady, execute_ran, execute_zero_iff}

abbrev no_env : Env
no_env _ = none

abbrev settings : EffectiveSettings
settings = record {
  env = "prod";
  markers = smoke ∷ regression ∷ [];
  allow_non_smoke_in_prod = false;
}

abbrev no_config : Loaded ℕ
no_config = not_loaded none

abbrev resolve : ℕ → Resolved
resolve _ = resolved settings

abbrev load_prod : EffectiveSettings → Loaded Bool
load_prod _ = loaded true

abbrev runs : EffectiveSettings → Ran
runs _ = completed (record { total = 3; passed = 2; failed = 0; flaky = 1 })

abbrev some_fail : EffectiveSettings → Ran
some_fail _ = completed (record { total = 3; passed = 2; failed = 1; flaky = 0 })

confirmed_run :
    execute default_is_ci no_env "CONFIRM" (loaded 0) resolve load_prod runs ≡ (none, true)
unfolding execute gate_then_run evaluate default_is_ci delegate fail_if_any_tests_failed
confirmed_run = refl

refused_run : exit_code (execute default_is_ci no_env "" (loaded 0) resolve load_prod runs).0 ≡ 4
unfolding execute gate_then_run evaluate default_is_ci error_to_exit_code
refused_run = refl

failed_run :
    exit_code (execute default_is_ci no_env "CONFIRM" (loaded 0) resolve load_prod some_fail).0 ≡ 1
unfolding execute gate_then_run evaluate default_is_ci delegate fail_if_any_tests_failed
    error_to_exit_code
failed_run = refl

config_missing : exit_code (execute default_is_ci no_env "" no_config resolve load_prod runs).0 ≡ 2
unfolding execute config_failure error_to_exit_code
config_missing = refl

execute_ran_example :
    (s : EffectiveSettings) × (prod : Bool) × IsReady (loaded 0) resolve load_prod s prod
    × MayRun default_is_ci no_env "CONFIRM" s prod
execute_ran_example =
    execute_ran default_is_ci no_env "CONFIRM" (loaded 0) resolve load_prod runs
      (ap (λ r. r.1) confirmed_run)

never_rejects :
    (s : EffectiveSettings) (err : Thrown) → runs s ≡ rejected err → error_to_exit_code err ≢ 0
never_rejects s err e = cc

execute_zero_iff_example :
    (exit_code (execute default_is_ci no_env "CONFIRM" (loaded 0) resolve load_prod runs).0 ≡ 0) ↔ (
      (s : EffectiveSettings) × (prod : Bool) × IsReady (loaded 0) resolve load_prod s prod
      × MayRun default_is_ci no_env "CONFIRM" s prod
      × ((outcome : TestRunOutcome) × (runs s ≡ completed outcome) × (outcome.failed ≡ 0)))
execute_zero_iff_example =
    execute_zero_iff default_is_ci no_env "CONFIRM" (loaded 0) resolve load_prod runs never_rejects
