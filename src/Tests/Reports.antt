-- ===== src/Tests/Reports.antt =====
-- Reports of two mutants.
use gremlins.Prelude.{OneOf, ◌≡◌, ◌≢◌, ◌↔◌, false, List, [], ◌∷◌, codes}
use gremlins.Mutator.{Mutant, Status, killed, lived, arithmetic_base}
use gremlins.Execution.{main_exit_code}
use gremlins.Report.{Results, tally, empty_tally}
use gremlins.Report.Assess.{
  Config, as_float, unset, do_report, ReportStatus, efficacy_of, covered_of,
}
use gremlins.Report.Thresholds.{exit_code-do_report, EfficacyMissed}
use gremlins.Report.Logger.{log_mutant, new_logger, print_mutant, print_diff}
use gremlins.Report.Logger.Shown.{Shown, DiffShown, calls-new_logger}
use gremlins.Tests.Toy.{float_ℕ, at}

abbrev mutant : Status → Mutant
mutant s = record {
  mutant_type = arithmetic_base;
  status = s;
  position = at 3 5;
  pkg = codes "m";
  workdir = [];
  orig_snippet = [];
  mutated_snippet = [];
}

abbrev two : List Mutant
two = mutant killed ∷ mutant lived ∷ []

abbrev two_results : Results
two_results = record { module_name = codes "m"; mutants = two; elapsed = 9 }

abbrev strict : Config float_ℕ
strict = record { dry_run = false; output = []; efficacy = as_float 100; mutant_coverage = unset }

exit_code-do_report_example :
    (main_exit_code (do_report float_ℕ strict two_results).1 ≡ 10)
    ↔ ((two ≢ []) × (false ≡ false) × EfficacyMissed float_ℕ strict two)
exit_code-do_report_example = (exit_code-do_report float_ℕ strict two_results).0

abbrev two_report : ReportStatus float_ℕ
two_report = record {
  counts = tally empty_tally two;
  elapsed = 9;
  module_name = codes "m";
  t_efficacy = efficacy_of float_ℕ false (tally empty_tally two);
  m_covered = covered_of float_ℕ false (tally empty_tally two);
}

calls-new_logger_example :
    (OneOf
        (print_mutant (mutant lived))
        (log_mutant (new_logger (codes "lk") (codes "l")) (mutant lived))
      ↔ Shown (codes "lk") lived)
    × (OneOf
          (print_diff (mutant lived))
          (log_mutant (new_logger (codes "lk") (codes "l")) (mutant lived))
        ↔ (Shown (codes "lk") lived × DiffShown (codes "l") lived))
calls-new_logger_example = calls-new_logger (codes "lk") (codes "l") (mutant lived)
