-- ===== src/Report.antt =====
-- internal/report/report.go: the statistics of a run, and whether it meets the thresholds.
-- Colours, the formatting of durations and the log's writer are left out; the statistics, the texts'
-- choice and the result do not depend on them.
pub mod Float
pub mod Logger
pub mod Lines
pub mod Summary
pub mod Counters
pub mod Assess
pub mod Thresholds
use gremlins.Prelude.{
  ℤ, pos, ℕ, suc, ◌+◌, ◌-◌, Bool, true, false, ◌&&◌, List, [], ◌∷◌, ◌++◌, Option, none, some, Text,
  ltb, ◌==◌, if◌then◌else◌,
}
use gremlins.Prelude.GoMap.{GoMap, append_at}
use gremlins.Mutator.{
  Mutant, MutantType, Status, status_string, type_string, not_covered, runnable, skipped, lived,
  killed, not_viable, timed_out, arithmetic_base, conditionals_boundary, conditionals_negation,
  increment_decrement, invert_assignments, invert_bitwise, invert_bitwise_assignments,
  invert_logical, invert_loop_ctrl, invert_negatives, remove_self_assignments,
}
use gremlins.Execution.{
  ErrorType, efficacy_threshold, mutant_coverage_threshold, Failure, exits, new_exit_err,
}
use Float.{Float64}

pub record Results : Type 0 where
  pub module_name : Text
  pub mutants : List Mutant
  pub elapsed : ℕ

-- report/internal/structure.go: `Mutation`, `MutatorType`, `OutputFile`.
pub record Mutation : Type 0 where
  pub line : ℕ
  pub column : ℕ
  pub type_name : Text
  pub status_name : Text

pub record Statistics : Type 0 where
  pub arithmetic_bases : ℕ
  pub conditionals_negations : ℕ
  pub conditionals_boundaries : ℕ
  pub increment_decrements : ℕ
  pub invert_assignments_ : ℕ
  pub invert_bitwises : ℕ
  pub invert_bitwise_assignments_ : ℕ
  pub invert_logicals : ℕ
  pub invert_loop_ctrls : ℕ
  pub invert_negatives_ : ℕ
  pub remove_self_assignments_ : ℕ

-- The counters of `reportStatus`.
pub record Tally : Type 0 where
  pub files : GoMap (List Mutation)
  pub killed_count : ℕ
  pub lived_count : ℕ
  pub timed_out_count : ℕ
  pub not_covered_count : ℕ
  pub skipped_count : ℕ
  pub not_viable_count : ℕ
  pub runnable_count : ℕ
  pub statistics : Statistics

unfoldable pub mutation_of : Mutant → Mutation
mutation_of m = record {
  line = m.position.line;
  column = m.position.column;
  type_name = type_string m.mutant_type;
  status_name = status_string m.status;
}

count_status : Status → Tally → Tally
count_status killed r = record r { killed_count = suc r.killed_count }
count_status lived r = record r { lived_count = suc r.lived_count }
count_status not_covered r = record r { not_covered_count = suc r.not_covered_count }
count_status skipped r = record r { skipped_count = suc r.skipped_count }
count_status timed_out r = record r { timed_out_count = suc r.timed_out_count }
count_status not_viable r = record r { not_viable_count = suc r.not_viable_count }
count_status runnable r = record r { runnable_count = suc r.runnable_count }

-- `reportMutationStatus`.
unfoldable pub report_mutation_status : Mutant → Tally → Tally
unfolding count_status
report_mutation_status m r = count_status m.status r

count_type : MutantType → Statistics → Statistics
count_type arithmetic_base s = record s { arithmetic_bases = suc s.arithmetic_bases }
count_type conditionals_negation s = record s {
  conditionals_negations = suc s.conditionals_negations;
}
count_type conditionals_boundary s = record s {
  conditionals_boundaries = suc s.conditionals_boundaries;
}
count_type increment_decrement s = record s { increment_decrements = suc s.increment_decrements }
count_type invert_assignments s = record s { invert_assignments_ = suc s.invert_assignments_ }
count_type invert_bitwise_assignments s = record s {
  invert_bitwise_assignments_ = suc s.invert_bitwise_assignments_;
}
count_type invert_bitwise s = record s { invert_bitwises = suc s.invert_bitwises }
count_type invert_logical s = record s { invert_logicals = suc s.invert_logicals }
count_type invert_loop_ctrl s = record s { invert_loop_ctrls = suc s.invert_loop_ctrls }
count_type invert_negatives s = record s { invert_negatives_ = suc s.invert_negatives_ }
count_type remove_self_assignments s = record s {
  remove_self_assignments_ = suc s.remove_self_assignments_;
}

-- `reportMutatorType`.
unfoldable pub report_mutator_type : Mutant → Tally → Tally
unfolding count_type
report_mutator_type m r = record r { statistics = count_type m.mutant_type r.statistics }

-- The body of the loop of `newReport`.
unfoldable pub tally_mutant : Mutant → Tally → Tally
unfolding report_mutation_status report_mutator_type mutation_of
tally_mutant m r =
    let listed = record r { files = append_at m.position.filename (mutation_of m) r.files } in
    report_mutator_type m (report_mutation_status m listed)

unfoldable pub tally : Tally → List Mutant → Tally
tally r [] = r
tally r (m ∷ ms) = tally (tally_mutant m r) ms

abbrev pub no_statistics : Statistics
no_statistics = record {
  arithmetic_bases = 0;
  conditionals_negations = 0;
  conditionals_boundaries = 0;
  increment_decrements = 0;
  invert_assignments_ = 0;
  invert_bitwises = 0;
  invert_bitwise_assignments_ = 0;
  invert_logicals = 0;
  invert_loop_ctrls = 0;
  invert_negatives_ = 0;
  remove_self_assignments_ = 0;
}

abbrev pub empty_tally : Tally
empty_tally = record {
  files = [];
  killed_count = 0;
  lived_count = 0;
  timed_out_count = 0;
  not_covered_count = 0;
  skipped_count = 0;
  not_viable_count = 0;
  runnable_count = 0;
  statistics = no_statistics;
}
