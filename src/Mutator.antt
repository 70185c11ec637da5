-- ===== src/Mutator.antt =====
-- internal/mutator/mutator.go: the statuses and the types of a mutant, and their printed names.
-- A Go `Status` or `Type` outside the declared constants makes `String` panic; the data types have
-- the declared constants only.
pub mod Names
use gremlins.Prelude.{List, [], ◌∷◌, Text, codes}
use gremlins.Token.{Position}

pub data Status : Type 0 where
  not_covered runnable skipped lived killed not_viable timed_out : Status

pub Status-discrete : Discrete Status
Status-discrete = hlevel

-- `Status.String`.
unfoldable pub status_string : Status → Text
status_string not_covered = codes "NOT COVERED"
status_string runnable = codes "RUNNABLE"
status_string skipped = codes "SKIPPED"
status_string lived = codes "LIVED"
status_string killed = codes "KILLED"
status_string not_viable = codes "NOT VIABLE"
status_string timed_out = codes "TIMED OUT"

-- Go's `mutator.Type`.
pub data MutantType : Type 0 where
  arithmetic_base conditionals_boundary conditionals_negation : MutantType
  increment_decrement invert_assignments invert_bitwise invert_bitwise_assignments : MutantType
  invert_logical invert_loop_ctrl invert_negatives remove_self_assignments : MutantType

-- `Types`, in the order of the source.
unfoldable pub types : List MutantType
types =
    arithmetic_base ∷ conditionals_boundary ∷ conditionals_negation ∷ invert_assignments
    ∷ invert_bitwise ∷ invert_bitwise_assignments ∷ increment_decrement ∷ invert_logical
    ∷ invert_loop_ctrl ∷ invert_negatives ∷ remove_self_assignments ∷ []

-- `Type.String`.
unfoldable pub type_string : MutantType → Text
type_string conditionals_boundary = codes "CONDITIONALS_BOUNDARY"
type_string conditionals_negation = codes "CONDITIONALS_NEGATION"
type_string increment_decrement = codes "INCREMENT_DECREMENT"
type_string invert_logical = codes "INVERT_LOGICAL"
type_string invert_negatives = codes "INVERT_NEGATIVES"
type_string arithmetic_base = codes "ARITHMETIC_BASE"
type_string invert_loop_ctrl = codes "INVERT_LOOPCTRL"
type_string invert_assignments = codes "INVERT_ASSIGNMENTS"
type_string invert_bitwise = codes "INVERT_BITWISE"
type_string invert_bitwise_assignments = codes "INVERT_BWASSIGN"
type_string remove_self_assignments = codes "REMOVE_SELF_ASSIGNMENTS"

-- What the interface `Mutator` lets a caller read of a mutant.
pub record Mutant : Type 0 where
  pub mutant_type : MutantType
  pub status : Status
  pub position : Position
  pub pkg : Text
  pub workdir : Text
  pub orig_snippet : Text
  pub mutated_snippet : Text
