-- ===== src/Report/Thresholds.antt =====
-- The percentages and the thresholds.
use gremlins.Prelude.{
  pos, ℕ, ◌+◌, ◌≤◌, ◌<◌, ◌≡◌, ◌≢◌, ◌↔◌, ◌⊎◌, inl, inr, Bool, true, false, List, [], some, ltb,
  ltb→lt, arith, Bool-cases,
}
use gremlins.Mutator.{Mutant}
use gremlins.Execution.{new_exit_err, main_exit_code}
use gremlins.Report.Float.{Float64, FloatLaws}
use gremlins.Report.{Results, Tally, tally, empty_tally}
use gremlins.Report.Assess.{
  Config, ReportStatus, as_float, percent, efficacy_of, covered_of, new_report, threshold,
  do_report,
}

module _ (f : Float64) where
  open f use {F, of_int, lt, le}

  -- A percentage misses a threshold: the threshold is set, and not exceeded.
  abbrev pub Misses : F → F → Type 0
  Misses value bound = (lt (of_int (pos 0)) bound ≡ true) × (le value bound ≡ true)

  abbrev pub EfficacyMissed : Config f → List Mutant → Type 0
  EfficacyMissed c ms =
      Misses (efficacy_of f c.dry_run (tally empty_tally ms)) (threshold f c.efficacy)

  abbrev pub CoverageMissed : Config f → List Mutant → Type 0
  CoverageMissed c ms =
      Misses (covered_of f c.dry_run (tally empty_tally ms)) (threshold f c.mutant_coverage)

  -- The exit code of a report: 10 exactly when a full run has mutants and misses the efficacy
  -- threshold, 11 exactly when it misses only the threshold of the mutant coverage, and 0 otherwise.
  pub exit_code-do_report :
      (c : Config f) (results : Results)
      → let code = main_exit_code (do_report f c results).1 in
        ((code ≡ 10)
          ↔ ((results.mutants ≢ []) × (c.dry_run ≡ false) × EfficacyMissed c results.mutants))
        × ((code ≡ 11) ↔ (
            (results.mutants ≢ [])
            × (c.dry_run ≡ false)
            × (¬ EfficacyMissed c results.mutants)
            × CoverageMissed c results.mutants))
        × ((code ≡ 0) ⊎ (code ≡ 10) ⊎ (code ≡ 11))
  unfolding do_report main_exit_code new_exit_err
  exit_code-do_report c results = ground arith

  module _ (laws : FloatLaws f) where
    abbrev pub InRange : F → Type 0
    InRange x = (le (of_int (pos 0)) x ≡ true) × (le x (of_int (pos 100)) ≡ true)

    percent_range : (a b : ℕ) → 0 < b → a ≤ b → InRange (percent f a b)
    unfolding percent
    percent_range a b h l =
        let low = laws.mul_mono_hundred _ _ (laws.div_nonneg a b h) in
        let high = laws.mul_mono_hundred _ _ (laws.div_le_one a b h l) in
        (
          rw (laws.mul_int 0 100 (omega arith) (omega arith)) at low,
          rw (laws.mul_int 1 100 (omega arith) (omega arith)) at high,
        )

    zero_range : InRange (of_int (pos 0))
    zero_range = (laws.le_refl_int 0 (omega arith), laws.zero_le_hundred)

    efficacy_range : (dry : Bool) (t : Tally) → InRange (efficacy_of f dry t)
    unfolding efficacy_of
    efficacy_range true t = zero_range
    efficacy_range false t = elim (Bool-cases (ltb 0 t.killed_count)) [
      | inl some_killed ↦ rw some_killed (
          percent_range t.killed_count (t.killed_count + t.lived_count)
            (omega (arith, ltb→lt _ _ some_killed)) (omega arith))
      | inr no_kill ↦ rw no_kill zero_range
    ]

    covered_range : (dry : Bool) (t : Tally) → InRange (covered_of f dry t)
    unfolding covered_of
    covered_range true t = elim (Bool-cases (ltb 0 t.runnable_count)) [
      | inl some_run ↦ rw some_run (
          percent_range t.runnable_count (t.runnable_count + t.not_covered_count)
            (omega (arith, ltb→lt _ _ some_run)) (omega arith))
      | inr no_run ↦ rw no_run zero_range
    ]
    covered_range false t = elim (Bool-cases (ltb 0 (t.killed_count + t.lived_count))) [
      | inl some_run ↦ rw some_run (
          percent_range (t.killed_count + t.lived_count)
            (t.killed_count + t.lived_count + t.not_covered_count)
            (omega (arith, ltb→lt _ _ some_run)) (omega arith))
      | inr no_run ↦ rw no_run zero_range
    ]

    -- Both percentages of a report are between 0 and 100, both included.
    pub new_report_range :
        (c : Config f) (results : Results) (r : ReportStatus f)
        → new_report f c results ≡ some r
        → InRange r.t_efficacy × InRange r.m_covered
    unfolding new_report
    new_report_range c results r h = ground (
      arith,
      efficacy_range c.dry_run (tally empty_tally results.mutants),
      covered_range c.dry_run (tally empty_tally results.mutants),
    )

    threshold_hundred : threshold f (as_float (of_int (pos 100))) ≡ of_int (pos 100)
    unfolding threshold
    threshold_hundred = rw (laws.eq_int 0 100 (omega arith) (omega arith))

    -- A full run with mutants ends with exit code 10 if the efficacy threshold is 100, whatever the
    -- tests kill: a threshold has to be exceeded, and the efficacy is never above 100.
    hundred_never_met :
        (c : Config f) (results : Results)
        → c.dry_run ≡ false
        → c.efficacy ≡ as_float (of_int (pos 100))
        → results.mutants ≢ []
        → main_exit_code (do_report f c results).1 ≡ 10
    hundred_never_met c results d e n = (exit_code-do_report c results).0.1 (
      n,
      d,
      rw (e, threshold_hundred)
          (
            laws.lt_int 0 100 (omega arith) (omega arith),
            (efficacy_range c.dry_run (tally empty_tally results.mutants)).1,
          ),
    )
