-- ===== src/Cli/ExitCodes/Mapping.antt =====
-- Which exit code an error gets, and what the log shows of it.
use apiwright.Prelude.{
  ℕ, ◌≡◌, ◌⊎◌, refl, inl, inr, true, false, Option, none, some, [], ◌∷◌, String, arith,
}
use apiwright.Cli.ExitCodes.{
  Thrown, cli_error, runner_error, docs_error, foreign_error, non_error, error_to_exit_code,
  LogLine, error, debug, handle_cli_error,
}

-- The foreign errors that carry a number.
abbrev pub numeric_code : Thrown → Option ℕ
numeric_code (foreign_error code _ _) = code
numeric_code _ = none

abbrev pub IsDocumented : ℕ → Type 0
IsDocumented n = (n ≡ 1) ⊎ (n ≡ 2) ⊎ (n ≡ 3) ⊎ (n ≡ 4) ⊎ (n ≡ 5) ⊎ (n ≡ 70)

-- Whatever is thrown, the exit code is one of the documented failure codes 1, 2, 3, 4, 5 and 70, and
-- so never 0, unless a foreign error carries a number of its own: then it is that number.
pub error_to_exit_code-IsDocumented :
    (err : Thrown)
    → (IsDocumented (error_to_exit_code err) × (numeric_code err ≡ none))
      ⊎ (numeric_code err ≡ some (error_to_exit_code err))
unfolding error_to_exit_code
error_to_exit_code-IsDocumented (cli_error kind _ _) = inl (ground arith, refl)
error_to_exit_code-IsDocumented (runner_error code _ _) = inl (ground arith, refl)
error_to_exit_code-IsDocumented (docs_error code _ _) = inl (ground arith, refl)
error_to_exit_code-IsDocumented (foreign_error (some code) _ _) = inr refl
error_to_exit_code-IsDocumented (foreign_error none _ _) = inl (ground arith, refl)
error_to_exit_code-IsDocumented (non_error _) = inl (ground arith, refl)

abbrev pub IsErrorLine : LogLine → Type 0
IsErrorLine (error _) = Unit
IsErrorLine (debug _) = ⊥

-- Outside the debug level the log shows one error line and no stack, whatever was thrown; at the
-- debug level it shows one line more; and the exit code does not depend on the level.
pub handle_cli_error_lines :
    (err : Thrown)
    → ((m : String) × ((handle_cli_error false err).0 ≡ error m ∷ [])
        × ((s : String) × ((handle_cli_error true err).0 ≡ error m ∷ debug s ∷ [])))
      × ((handle_cli_error false err).1 ≡ (handle_cli_error true err).1)
unfolding handle_cli_error
handle_cli_error_lines (cli_error kind m s) = ((_, refl, (_, refl)), refl)
handle_cli_error_lines (runner_error code m s) = ((_, refl, (_, refl)), refl)
handle_cli_error_lines (docs_error code m s) = ((_, refl, (_, refl)), refl)
handle_cli_error_lines (foreign_error code m s) = ((_, refl, (_, refl)), refl)
handle_cli_error_lines (non_error t) = ((_, refl, (_, refl)), refl)
