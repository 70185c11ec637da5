-- ===== src/Log.antt =====
-- internal/log/log.go: the one logger of the program, and what it writes.
-- A writer is a number, and what has been written to it is a list of messages; a nil writer is
-- `none`. Messages come formatted, with the colour of their prefix; the mutex of `Init` makes it one
-- step.
pub mod Order
use gremlins.Prelude.{
  ℕ, Bool, true, false, List, [], ◌∷◌, ◌++◌, Option, none, some, Text, codes, ◌==◌, if◌then◌else◌,
}

-- The logger: its two writers.
pub record Logger : Type 0 where
  pub out : ℕ
  pub e_out : ℕ

-- The variable `instance`, and what each writer has got, the first message first.
pub record State : Type 0 where
  pub instance_ : Option Logger
  pub texts : ℕ → List Text

abbrev pub write_to : ℕ → Text → State → State
write_to w message s = record s {
  texts = λ v. if v == w then s.texts v ++ message ∷ [] else s.texts v;
}

-- `Init`: nothing with a nil writer, and nothing once there is a logger.
unfoldable pub init_log : Option ℕ → Option ℕ → State → State
init_log none e_out s = s
init_log (some out) none s = s
init_log (some out) (some e_out) s = elim s.instance_ [
  | none ↦ record s { instance_ = some (record { out = out; e_out = e_out }) }
  | some l ↦ s
]

-- `Reset`.
unfoldable pub reset : State → State
reset s = record s { instance_ = none }

-- `Infof` and `Infoln`, with `writef` and `writeln`: nothing where the run is silent.
unfoldable pub info : Bool → Text → State → State
info silent message s = elim s.instance_ [
  | none ↦ s
  | some l ↦ if silent then s else write_to l.out message s
]

-- `Errorf` and `Errorln`, with `eWritef` and `eWriteln`; `prefix` is the coloured "ERROR".
unfoldable pub error : Text → Text → State → State
error prefix message s = elim s.instance_ [
  | none ↦ s
  | some l ↦ write_to l.e_out (prefix ++ codes ": " ++ message) s
]

-- A call of the package, but for `Reset`.
pub data Call : Type 0 where
  calls_init : Option ℕ → Option ℕ → Call
  calls_info calls_error : Text → Call

unfoldable pub call : Bool → Text → Call → State → State
unfolding init_log info error
call silent prefix (calls_init out e_out) s = init_log out e_out s
call silent prefix (calls_info message) s = info silent message s
call silent prefix (calls_error message) s = error prefix message s

unfoldable pub calls : Bool → Text → List Call → State → State
unfolding call
calls silent prefix [] s = s
calls silent prefix (c ∷ cs) s = calls silent prefix cs (call silent prefix c s)
