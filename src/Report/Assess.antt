-- ===== src/Report/Assess.antt =====
-- internal/report/report.go from the statistics on: the two percentages, the JSON result, the
-- thresholds, and `Do`.
use gremlins.Prelude.{
  ℤ, pos, ℕ, ◌+◌, Bool, ◌&&◌, List, [], ◌∷◌, Option, none, some, Text, text_eq, ltb, if◌then◌else◌,
  map,
}
use gremlins.Execution.{efficacy_threshold, mutant_coverage_threshold, Failure, exits, new_exit_err}
use gremlins.Report.Float.{Float64}
use gremlins.Report.{Results, Mutation, Statistics, Tally, tally, empty_tally}

-- A value of the configuration, by its dynamic type; `Get[T]` gives the zero value of another type.
pub data Setting (F : Type 0) : Type 0 where
  as_float : F → Setting F
  as_int : ℤ → Setting F
  unset : Setting F

module _ (f : Float64) where
  open f use {F, of_int, div, mul, lt, le, eq}

  pub record Config : Type 0 where
    pub dry_run : Bool
    pub output : Text
    pub efficacy : Setting F
    pub mutant_coverage : Setting F

  pub record ReportStatus : Type 0 where
    pub counts : Tally
    pub open counts use *
    pub elapsed : ℕ
    pub module_name : Text
    pub t_efficacy : F
    pub m_covered : F

  get_float : Setting F → F
  get_float (as_float x) = x
  get_float (as_int n) = of_int (pos 0)
  get_float unset = of_int (pos 0)

  get_int : Setting F → ℤ
  get_int (as_float x) = pos 0
  get_int (as_int n) = n
  get_int unset = pos 0

  -- `float64(a) / float64(b) * 100`.
  unfoldable pub percent : ℕ → ℕ → F
  percent a b = mul (div (of_int (pos a)) (of_int (pos b))) (of_int (pos 100))

  -- The two percentages of `newReport`; what is not assigned stays 0.
  unfoldable pub efficacy_of : Bool → Tally → F
  unfolding percent
  efficacy_of dry t =
      if dry
      then of_int (pos 0)
      else if ltb 0 t.killed_count
      then percent t.killed_count (t.killed_count + t.lived_count)
      else of_int (pos 0)

  unfoldable pub covered_of : Bool → Tally → F
  unfolding percent
  covered_of dry t =
      if dry
      then if ltb 0 t.runnable_count
        then percent t.runnable_count (t.runnable_count + t.not_covered_count)
        else of_int (pos 0)
      else if ltb 0 (t.killed_count + t.lived_count)
      then percent (t.killed_count + t.lived_count)
          (t.killed_count + t.lived_count + t.not_covered_count)
      else of_int (pos 0)

  -- `newReport`; `none` is its `false`.
  unfoldable pub new_report : Config → Results → Option ReportStatus
  unfolding efficacy_of covered_of
  new_report c results = elim results.mutants [
    | [] ↦ none
    | m ∷ ms ↦
        let t = tally empty_tally (m ∷ ms) in
        some (record {
          counts = t;
          elapsed = results.elapsed;
          module_name = results.module_name;
          t_efficacy = efficacy_of c.dry_run t;
          m_covered = covered_of c.dry_run t;
        })
  ]

  -- The threshold as `assess` reads it: as a float, and if that is 0, as an int.
  unfoldable pub threshold : Setting F → F
  unfolding get_float get_int
  threshold s = if eq (get_float s) (of_int (pos 0)) then of_int (get_int s) else get_float s

  -- `assess`; `none` is the nil error.
  unfoldable pub assess : Config → F → F → Option Failure
  assess c t_eff r_cov =
      let et = threshold c.efficacy in
      let ct = threshold c.mutant_coverage in
      if c.dry_run
      then none
      else if lt (of_int (pos 0)) et && le t_eff et
      then some (exits (new_exit_err efficacy_threshold))
      else if lt (of_int (pos 0)) ct && le r_cov ct
      then some (exits (new_exit_err mutant_coverage_threshold))
      else none

  -- `OutputResult` and `OutputFile`. The elapsed time is kept in nanoseconds.
  pub record OutputFile : Type 0 where
    pub filename : Text
    pub mutations : List Mutation

  pub record OutputResult : Type 0 where
    pub go_module : Text
    pub files : List OutputFile
    pub test_efficacy : F
    pub mutations_coverage : F
    pub mutants_total : ℕ
    pub mutants_killed : ℕ
    pub mutants_lived : ℕ
    pub mutants_not_viable : ℕ
    pub mutants_not_covered : ℕ
    pub elapsed_time : ℕ
    pub mutator_statistics : Statistics

  output_file : Text × List Mutation → OutputFile
  output_file (name, mutations) = record { filename = name; mutations = mutations }

  -- `fileReport`: what is written, if an output is set. Go visits the files in an arbitrary order.
  unfoldable pub file_report : Config → ReportStatus → Option OutputResult
  unfolding output_file text_eq
  file_report c r =
      if text_eq c.output []
      then none
      else some (record {
        go_module = r.module_name;
        files = map output_file r.files;
        test_efficacy = r.t_efficacy;
        mutations_coverage = r.m_covered;
        mutants_total = r.lived_count + r.killed_count + r.not_viable_count;
        mutants_killed = r.killed_count;
        mutants_lived = r.lived_count;
        mutants_not_viable = r.not_viable_count;
        mutants_not_covered = r.not_covered_count;
        elapsed_time = r.elapsed;
        mutator_statistics = r.statistics;
      })

  -- `Do`: the error, and the file written.
  unfoldable pub do_report : Config → Results → Option OutputResult × Option Failure
  unfolding assess file_report new_report
  do_report c results = elim (new_report c results) [
    | none ↦ (none, none)
    | some r ↦ (file_report c r, assess c r.t_efficacy r.m_covered)
  ]
