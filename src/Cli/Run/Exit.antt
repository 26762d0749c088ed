-- ===== src/Cli/Run/Exit.antt =====
-- When a run exits with 0, and what has to hold before the test runner is called.
use mathlib.Core.Bool.{false≢true}
use apiwright.Prelude.{
  ◌≡◌, ◌≢◌, ◌⊎◌, ◌↔◌, refl, sym, ◌∙◌, inl, inr, Bool, true, false, Option, List, String, arith,
}
use apiwright.Cli.Gate.{ProdSafetyDecision, allowed, blocked, Env, evaluate}
use apiwright.Cli.Gate.Decisions.{MayStart, evaluate-allowed_iff}
use apiwright.Cli.ExitCodes.{Thrown, error_to_exit_code}
use apiwright.Cli.Run.{
  Loaded, loaded, not_loaded, EffectiveSettings, TestRunOutcome, Ran, completed, rejected, Resolved,
  resolved, unresolved, config_failure, delegate, gate_then_run, execute, exit_code,
}

decision_cases :
    (d : ProdSafetyDecision) → (d ≡ allowed) ⊎ ((reason : String) × (d ≡ blocked reason))
decision_cases allowed = inl refl
decision_cases (blocked reason) = inr (reason, refl)

Loaded-cases {ℓ} :
    {A : Type ℓ} (l : Loaded A)
    → ((a : A) × (l ≡ loaded a)) ⊎ ((errors : Option (List String)) × (l ≡ not_loaded errors))
Loaded-cases (loaded a) = inl (a, refl)
Loaded-cases (not_loaded errors) = inr (errors, refl)

Resolved-cases :
    (r : Resolved)
    → ((s : EffectiveSettings) × (r ≡ resolved s))
      ⊎ ((errors : List String) × (r ≡ unresolved errors))
Resolved-cases (resolved s) = inl (s, refl)
Resolved-cases (unresolved errors) = inr (errors, refl)

-- Where a run got past the loaders.
pub record IsReady {ℓ} {Config : Type ℓ} (config : Loaded Config) (resolve : Config → Resolved)
    (load_env : EffectiveSettings → Loaded Bool) (s : EffectiveSettings) (prod : Bool)
    : Type ℓ where
  pub loaded_config : Config
  pub config_loaded : config ≡ loaded loaded_config
  pub settings_resolved : resolve loaded_config ≡ resolved s
  pub env_loaded : load_env s ≡ loaded prod

module _ (is_ci : Env → Bool) (process_env : Env) (answer : String) where
  abbrev pub MayRun : EffectiveSettings → Bool → Type 0
  MayRun s prod = MayStart is_ci process_env answer prod s.markers s.allow_non_smoke_in_prod

  gate_then_run_open :
      (s : EffectiveSettings) (prod : Bool) (ran : Ran)
      → MayRun s prod
      → gate_then_run is_ci process_env answer s prod ran ≡ delegate ran
  unfolding gate_then_run
  gate_then_run_open s false ran h = refl
  gate_then_run_open s true ran h =
      rw (
        (evaluate-allowed_iff is_ci process_env answer true s.markers s.allow_non_smoke_in_prod).1
          h)

  gate_then_run_ran :
      (s : EffectiveSettings) (prod : Bool) (ran : Ran)
      → (gate_then_run is_ci process_env answer s prod ran).1 ≡ true
      → MayRun s prod
  unfolding gate_then_run
  gate_then_run_ran s false ran h = inl refl
  gate_then_run_ran s true ran h =
      (evaluate-allowed_iff is_ci process_env answer true s.markers s.allow_non_smoke_in_prod).0
        (ground arith)

  delegate_zero :
      (ran : Ran)
      → ((err : Thrown) → ran ≡ rejected err → error_to_exit_code err ≢ 0)
      → exit_code (delegate ran).0 ≡ 0
      → (outcome : TestRunOutcome) × (ran ≡ completed outcome) × (outcome.failed ≡ 0)
  unfolding delegate error_to_exit_code
  delegate_zero (completed outcome) clean h = (outcome, refl, ground arith)
  delegate_zero (rejected err) clean h = absurd (clean err refl h)

  gate_then_run_cases :
      (s : EffectiveSettings) (prod : Bool) (ran : Ran)
      → MayRun s prod ⊎ (exit_code (gate_then_run is_ci process_env answer s prod ran).0 ≡ 4)
  unfolding gate_then_run error_to_exit_code
  gate_then_run_cases s false ran = inl (inl refl)
  gate_then_run_cases s true ran =
      elim (decision_cases
        (evaluate is_ci process_env answer true s.markers s.allow_non_smoke_in_prod).0) [
          | inl e ↦ inl (
              (evaluate-allowed_iff is_ci process_env answer true s.markers
                  s.allow_non_smoke_in_prod).0
                e)
          | inr (reason, e) ↦ inr (rw e)
        ]

  gate_then_run_zero :
      (s : EffectiveSettings) (prod : Bool) (ran : Ran)
      → ((err : Thrown) → ran ≡ rejected err → error_to_exit_code err ≢ 0)
      → exit_code (gate_then_run is_ci process_env answer s prod ran).0 ≡ 0
      → MayRun s prod
        × ((outcome : TestRunOutcome) × (ran ≡ completed outcome) × (outcome.failed ≡ 0))
  gate_then_run_zero s prod ran clean h = elim (gate_then_run_cases s prod ran) [
    | inl may ↦ (may, delegate_zero ran clean (rw (gate_then_run_open s prod ran may) at h))
    | inr four ↦ absurd (omega (arith, h, four))
  ]

  module _ {ℓ} {Config : Type ℓ} (config : Loaded Config) (resolve : Config → Resolved)
      (load_env : EffectiveSettings → Loaded Bool) (run : EffectiveSettings → Ran) where
    abbrev outcome_of : Option Thrown × Bool
    outcome_of = execute is_ci process_env answer config resolve load_env run

    execute_ready :
        (s : EffectiveSettings) (prod : Bool)
        → IsReady config resolve load_env s prod
        → outcome_of ≡ gate_then_run is_ci process_env answer s prod (run s)
    unfolding execute
    execute_ready s prod r = rw (r.config_loaded, r.settings_resolved, r.env_loaded, execute)

    execute_cases :
        ((s : EffectiveSettings) × (prod : Bool) × IsReady config resolve load_env s prod)
        ⊎ ((outcome_of.1 ≡ false) × (exit_code outcome_of.0 ≡ 2))
    unfolding execute config_failure error_to_exit_code
    execute_cases = elim (Loaded-cases config) [
      | inr (errors, e) ↦ inr (rw (e, execute) (refl, refl))
      | inl (c, e) ↦ elim (Resolved-cases (resolve c)) [
        | inr (errors, f) ↦ inr (rw (e, f, execute) (refl, refl))
        | inl (s, f) ↦ elim (Loaded-cases (load_env s)) [
          | inr (errors, g) ↦ inr (rw (e, f, g, execute) (refl, refl))
          | inl (prod, g) ↦ inl (
            s,
            prod,
            record { loaded_config = c; config_loaded = e; settings_resolved = f; env_loaded = g },
          )
        ]
      ]
    ]

    -- The test runner is called only when config, flags and environment are in order and, against
    -- production, the gate allows the run.
    pub execute_ran :
        (execute is_ci process_env answer config resolve load_env run).1 ≡ true
        → (s : EffectiveSettings) × (prod : Bool) × IsReady config resolve load_env s prod
          × MayRun s prod
    execute_ran h = elim execute_cases [
      | inl (s, prod, r) ↦
          (s, prod, r, gate_then_run_ran s prod (run s) (rw (execute_ready s prod r) at h))
      | inr (not_ran, _) ↦ absurd (false≢true (sym not_ran ∙ h))
    ]

    -- A run exits with 0 exactly when config, flags and environment are in order, the gate allows
    -- the run if it is against production, and the test runner completes with no failed test, if no
    -- error that the test runner rejects with is mapped to 0.
    pub execute_zero_iff :
        ((s : EffectiveSettings) (err : Thrown) → run s ≡ rejected err → error_to_exit_code err ≢ 0)
        → (exit_code (execute is_ci process_env answer config resolve load_env run).0 ≡ 0) ↔ (
            (s : EffectiveSettings) × (prod : Bool) × IsReady config resolve load_env s prod
            × MayRun s prod
            × ((outcome : TestRunOutcome) × (run s ≡ completed outcome) × (outcome.failed ≡ 0)))
    execute_zero_iff clean = (
      λ h. elim execute_cases [
        | inl (s, prod, r) ↦
            let (may, done) =
              gate_then_run_zero s prod (run s) (clean s) (rw (execute_ready s prod r) at h) in
            (s, prod, r, may, done)
        | inr (_, two) ↦ absurd (omega (arith, h, two))
      ],
      λ (s, prod, r, may, (outcome, done, none_failed)).
          rw (execute_ready s prod r) (
            rw (gate_then_run_open s prod (run s) may) (rw done (unfold delegate in ground arith))),
    )
