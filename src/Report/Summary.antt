-- ===== src/Report/Summary.antt =====
-- internal/report/report.go: the lines that `Do` logs, for a dry run and for a full one. Numbers,
-- durations and percentages as texts are parameters, as the colours are.
use gremlins.Prelude.{
  ℕ, ◌≡◌, refl, true, false, List, [], ◌∷◌, ◌++◌, none, some, Text, codes, if◌then◌else◌,
}
use gremlins.Mutator.{Mutant, killed, lived, not_covered, skipped, timed_out, not_viable, runnable}
use gremlins.Report.{Results, tally, empty_tally}
use gremlins.Report.Float.{Float64}
use gremlins.Report.Assess.{Config, ReportStatus, new_report, efficacy_of, covered_of}
use gremlins.Report.Counters.{having, counter-tally}
use gremlins.Report.Lines.{Style}

-- A number as `Sprint` writes it, a duration as its `String`, a float as `%.2f`.
record Format (F : Type 0) : Type 0 where
  number : ℕ → Text
  duration : ℕ → Text
  two_decimals : F → Text

module _ (f : Float64) (style : Style) (format : Format f.F) where
  open f use {F}
  open style use {fg_red, fg_green, fg_hi_green, fg_hi_yellow, fg_hi_black}
  open format use {number, duration, two_decimals}

  covered_line : F → Text
  covered_line x = codes "Mutator coverage: " ++ (two_decimals x ++ codes "%\n")

  runnable_line : ℕ → ℕ → Text
  runnable_line r n =
      codes "Runnable: "
      ++ (fg_green (number r)
          ++ (codes ", Not covered: " ++ (fg_hi_yellow (number n) ++ codes "\n")))

  -- `dryRunReport`.
  dry_run_report : ReportStatus f → List Text
  unfolding runnable_line covered_line
  dry_run_report r =
      codes "\n"
      ∷ (codes "Dry run completed in " ++ (duration r.elapsed ++ codes "\n"))
      ∷ runnable_line r.runnable_count r.not_covered_count
      ∷ covered_line r.m_covered
      ∷ []

  killed_line : ℕ → ℕ → ℕ → Text
  killed_line k l n =
      codes "Killed: "
      ++ (fg_hi_green (number k)
          ++ (codes ", Lived: "
              ++ (fg_red (number l)
                  ++ (codes ", Not covered: " ++ (fg_hi_yellow (number n) ++ codes "\n")))))

  timed_out_line : ℕ → ℕ → ℕ → Text
  timed_out_line t v s =
      codes "Timed out: "
      ++ (fg_green (number t)
          ++ (codes ", Not viable: "
              ++ (fg_hi_black (number v)
                  ++ (codes ", Skipped: " ++ (fg_hi_black (number s) ++ codes "\n")))))

  efficacy_line : F → Text
  efficacy_line x = codes "Test efficacy: " ++ (two_decimals x ++ codes "%\n")

  -- `fullRunReport`.
  full_run_report : ReportStatus f → List Text
  unfolding killed_line timed_out_line efficacy_line covered_line
  full_run_report r =
      codes "\n"
      ∷ (codes "Mutation testing completed in " ++ (duration r.elapsed ++ codes "\n"))
      ∷ killed_line r.killed_count r.lived_count r.not_covered_count
      ∷ timed_out_line r.timed_out_count r.not_viable_count r.skipped_count
      ∷ efficacy_line r.t_efficacy
      ∷ covered_line r.m_covered
      ∷ []

  -- What `Do` logs.
  report_lines : Config f → Results → List Text
  unfolding new_report dry_run_report full_run_report
  report_lines c results = elim (new_report f c results) [
    | none ↦ codes "\nNo results to report.\n" ∷ []
    | some r ↦ if c.dry_run then dry_run_report r else full_run_report r
  ]

  -- In a dry run with mutants, the lines show how many of them are runnable and how many are not
  -- covered, and the coverage; the other statuses do not appear.
  report_lines_dry :
      (c : Config f) (results : Results) (m : Mutant) (ms : List Mutant)
      → c.dry_run ≡ true
      → results.mutants ≡ m ∷ ms
      → report_lines c results
        ≡ codes "\n"
          ∷ (codes "Dry run completed in " ++ (duration results.elapsed ++ codes "\n"))
          ∷ runnable_line (having runnable (m ∷ ms)) (having not_covered (m ∷ ms))
          ∷ covered_line (covered_of f true (tally empty_tally (m ∷ ms)))
          ∷ []
  unfolding report_lines
  report_lines_dry c results m ms d e =
      rw (e, d, counter-tally runnable (m ∷ ms), counter-tally not_covered (m ∷ ms)) refl

  -- In a full run with mutants, the lines show how many of them have each of the other statuses, and
  -- the two percentages.
  report_lines_full :
      (c : Config f) (results : Results) (m : Mutant) (ms : List Mutant)
      → c.dry_run ≡ false
      → results.mutants ≡ m ∷ ms
      → report_lines c results
        ≡ codes "\n"
          ∷ (codes "Mutation testing completed in " ++ (duration results.elapsed ++ codes "\n"))
          ∷ killed_line
              (having killed (m ∷ ms))
              (having lived (m ∷ ms))
              (having not_covered (m ∷ ms))
          ∷ timed_out_line
              (having timed_out (m ∷ ms))
              (having not_viable (m ∷ ms))
              (having skipped (m ∷ ms))
          ∷ efficacy_line (efficacy_of f false (tally empty_tally (m ∷ ms)))
          ∷ covered_line (covered_of f false (tally empty_tally (m ∷ ms)))
          ∷ []
  unfolding report_lines
  report_lines_full c results m ms d e =
      rw
        (
          e,
          d,
          counter-tally killed (m ∷ ms),
          counter-tally lived (m ∷ ms),
          counter-tally not_covered (m ∷ ms),
          counter-tally timed_out (m ∷ ms),
          counter-tally not_viable (m ∷ ms),
          counter-tally skipped (m ∷ ms),
        )
        refl
