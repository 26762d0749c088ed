-- ===== src/Cli/ExitCodes/Tests.antt =====
-- The codes and the log of a few errors.
use apiwright.Prelude.{◌≡◌, ◌⊎◌, refl, none, some}
use apiwright.Cli.ExitCodes.{
  RunnerErrorCode, Thrown, runner_error, foreign_error, error_to_exit_code, runner_code_to_exit,
}
use apiwright.Cli.ExitCodes.Mapping.{IsDocumented, numeric_code, error_to_exit_code-IsDocumented}

shard_error : error_to_exit_code (runner_error RunnerErrorCode.shard_invalid "bad shard" none) ≡ 2
unfolding error_to_exit_code runner_code_to_exit
shard_error = refl

-- An error with a number of its own passes the type guard of `CliError`.
abort_error : error_to_exit_code (foreign_error (some 20) "This operation was aborted" none) ≡ 20
unfolding error_to_exit_code
abort_error = refl

abbrev unreachable : Thrown
unreachable = foreign_error none "connect ECONNREFUSED" (some "at connect")

error_to_exit_code-IsDocumented_example :
    (IsDocumented (error_to_exit_code unreachable) × (numeric_code unreachable ≡ none))
    ⊎ (numeric_code unreachable ≡ some (error_to_exit_code unreachable))
error_to_exit_code-IsDocumented_example = error_to_exit_code-IsDocumented unreachable
