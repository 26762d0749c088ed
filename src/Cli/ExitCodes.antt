-- ===== src/Cli/ExitCodes.antt =====
-- src/cli/exit-codes.ts, errors.ts, error-handler.ts: from a thrown value to the process's exit code.
pub mod Mapping
mod Tests
use apiwright.Prelude.{
  ℕ, Bool, true, false, Option, none, some, List, [], ◌∷◌, String, get_or, template, ltb,
  if◌then◌else◌,
}

pub data RunnerErrorCode : Type 0 where
  assertion_parse_failed discovery_failed emit_failed endpoint_parse_failed http_failed
        lifecycle_failed plan_empty retry_exhausted shard_invalid :
      RunnerErrorCode

pub data DocsErrorCode : Type 0 where
  endpoint_load_failed render_failed source_dir_empty write_failed : DocsErrorCode

-- The subclasses of `CliError`.
pub data CliErrorKind : Type 0 where
  config_error validation_failed run_failed prod_safety_abort not_implemented : CliErrorKind

-- The numbers of `enum ExitCode`.
pub data ExitCode : Type 0 where
  success test_failure usage validation prod_safety unimplemented internal : ExitCode

abbrev pub number_of : ExitCode → ℕ
number_of success = 0
number_of test_failure = 1
number_of usage = 2
number_of validation = 3
number_of prod_safety = 4
number_of unimplemented = 5
number_of internal = 70

-- The literal `code` of each subclass.
abbrev pub code_of : CliErrorKind → ExitCode
code_of config_error = usage
code_of validation_failed = validation
code_of run_failed = test_failure
code_of prod_safety_abort = prod_safety
code_of not_implemented = unimplemented

-- RUNNER_CODE_TO_EXIT
unfoldable pub runner_code_to_exit : RunnerErrorCode → ExitCode
runner_code_to_exit endpoint_parse_failed = validation
runner_code_to_exit discovery_failed = validation
runner_code_to_exit assertion_parse_failed = validation
runner_code_to_exit plan_empty = usage
runner_code_to_exit shard_invalid = usage
runner_code_to_exit http_failed = test_failure
runner_code_to_exit lifecycle_failed = test_failure
runner_code_to_exit retry_exhausted = test_failure
runner_code_to_exit emit_failed = test_failure

-- DOCS_CODE_TO_EXIT
unfoldable pub docs_code_to_exit : DocsErrorCode → ExitCode
docs_code_to_exit source_dir_empty = usage
docs_code_to_exit endpoint_load_failed = validation
docs_code_to_exit render_failed = internal
docs_code_to_exit write_failed = internal

-- What a `catch` can hold: an error of the program's own classes, another Error, whose `code`
-- property counts if it is a number, or a value that is no Error, with its text.
pub data Thrown : Type 0 where
  cli_error : CliErrorKind → (message : String) → (stack : Option String) → Thrown
  runner_error : RunnerErrorCode → (message : String) → (stack : Option String) → Thrown
  docs_error : DocsErrorCode → (message : String) → (stack : Option String) → Thrown
  foreign_error : (code : Option ℕ) → (message : String) → (stack : Option String) → Thrown
  non_error : (text : String) → Thrown

-- The type guard of `errorToExitCode` asks for a numeric `code` and not for the class, so a foreign
-- error's own code is answered as it is.
unfoldable pub error_to_exit_code : Thrown → ℕ
unfolding runner_code_to_exit docs_code_to_exit
error_to_exit_code (cli_error kind _ _) = number_of (code_of kind)
error_to_exit_code (runner_error code _ _) = number_of (runner_code_to_exit code)
error_to_exit_code (docs_error code _ _) = number_of (docs_code_to_exit code)
error_to_exit_code (foreign_error (some code) _ _) = code
error_to_exit_code (foreign_error none _ _) = number_of internal
error_to_exit_code (non_error _) = number_of internal

pub data LogLine : Type 0 where
  error debug : String → LogLine

abbrev with_stack : Bool → String → String → List LogLine
with_stack debug_level message stack =
    error message ∷ (if debug_level then debug stack ∷ [] else [])

-- The lines that the logger gets, and the code that the process exits with. `debug_level` is
-- `logger.level === "debug"`.
unfoldable pub handle_cli_error : Bool → Thrown → List LogLine × ℕ
unfolding error_to_exit_code
handle_cli_error debug_level (cli_error kind message stack) = (
  with_stack debug_level message (get_or stack ""),
  error_to_exit_code (cli_error kind message stack),
)
handle_cli_error debug_level (runner_error code message stack) = (
  with_stack debug_level message (get_or stack ""),
  error_to_exit_code (runner_error code message stack),
)
handle_cli_error debug_level (docs_error code message stack) = (
  with_stack debug_level message (get_or stack ""),
  error_to_exit_code (docs_error code message stack),
)
handle_cli_error debug_level (foreign_error code message stack) = (
  with_stack debug_level (template ("unexpected error: " ∷ message ∷ [])) (get_or stack ""),
  error_to_exit_code (foreign_error code message stack),
)
handle_cli_error debug_level (non_error text) = (
  with_stack debug_level (template ("unexpected error: " ∷ text ∷ [])) text,
  error_to_exit_code (non_error text),
)
