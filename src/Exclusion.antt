-- ===== src/Exclusion.antt =====
-- internal/exclusion/rules.go: files left out by regular expressions. The package regexp is a
-- parameter: `compile` gives the test that a compiled expression makes, or fails.
pub mod Laws
use gremlins.Prelude.{
  ℕ, suc, Bool, true, false, List, [], ◌∷◌, ◌++◌, Option, none, some, Text, if◌then◌else◌,
}

abbrev pub Rule : Type 0
Rule = Text → Bool

abbrev pub Rules : Type 0
Rules = List Rule

-- The error names the position of the value that does not compile.
pub data RulesResult : Type 0 where
  ok : Rules → RulesResult
  bad_value : ℕ → RulesResult

-- The loop of `New` at index `i`.
unfoldable pub compile_from : (Text → Option Rule) → ℕ → Rules → List Text → RulesResult
compile_from compile i rules [] = ok rules
compile_from compile i rules (s ∷ ss) = elim (compile s) [
  | none ↦ bad_value i
  | some r ↦ compile_from compile (suc i) (rules ++ r ∷ []) ss
]

unfoldable pub new : (Text → Option Rule) → List Text → RulesResult
unfolding compile_from
new compile flag_values = compile_from compile 0 [] flag_values

-- The loop of `IsFileExcluded`.
unfoldable pub any_matches : Rules → Text → Bool
any_matches [] path = false
any_matches (rule ∷ rules) path = if rule path then true else any_matches rules path

unfoldable pub is_file_excluded : Rules → Text → Bool
unfolding any_matches
is_file_excluded [] path = false
is_file_excluded (rule ∷ rules) path = any_matches (rule ∷ rules) path
