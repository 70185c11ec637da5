-- ===== src/Execution.antt =====
-- internal/execution/execution.go, and the exit code that cmd/gremlins/main.go makes of an error.
use gremlins.Prelude.{ℕ, Text, codes, Option, none, some}

pub data ErrorType : Type 0 where
  efficacy_threshold mutant_coverage_threshold : ErrorType

-- `ErrorType.String`.
unfoldable pub error_string : ErrorType → Text
error_string efficacy_threshold = codes "below efficacy-threshold"
error_string mutant_coverage_threshold = codes "below mutant coverage-threshold"

-- `errorMapping`.
unfoldable pub error_mapping : ErrorType → ℕ
error_mapping efficacy_threshold = 10
error_mapping mutant_coverage_threshold = 11

pub record ExitError : Type 0 where
  pub error_type : ErrorType
  pub exit_code : ℕ

-- `NewExitErr`.
unfoldable pub new_exit_err : ErrorType → ExitError
unfolding error_mapping
new_exit_err et = record { error_type = et; exit_code = error_mapping et }

-- `ExitError.Error`.
unfoldable pub error_message : ExitError → Text
unfolding error_string
error_message e = error_string e.error_type

-- An error that reaches `main`: one that wraps an `ExitError`, or another.
pub data Failure : Type 0 where
  exits : ExitError → Failure
  fails : Text → Failure

-- The exit code that `main` sets: 0 with no error, 1 with an error, and then the code of an
-- `ExitError`.
unfoldable pub main_exit_code : Option Failure → ℕ
main_exit_code none = 0
main_exit_code (some (fails message)) = 1
main_exit_code (some (exits e)) = e.exit_code
