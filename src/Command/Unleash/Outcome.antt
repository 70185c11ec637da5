-- ===== src/Command/Unleash/Outcome.antt =====
-- How `unleash` ends, its exit code, and what its results rest on.
use gremlins.Prelude.{ℕ, ◌≡◌, refl, Bool, true, false, Option, none, some, Text, arith}
use gremlins.GoModule
use gremlins.GoModule.{GoModule, InitResult}
use gremlins.Diff
use gremlins.Diff.{Diff, DiffResult, new_with_cmd}
use gremlins.Exclusion
use gremlins.Exclusion.{Rules, RulesResult}
use gremlins.Coverage.Profile.{Profile}
use gremlins.Coverage.Run.{
  CoverageResult, gathered, download_failed, coverage_failed, profile_failed, new_coverage,
  run_coverage,
}
use gremlins.Execution.{main_exit_code}
use gremlins.Report.{Results}
use gremlins.Report.Float.{Float64}
use gremlins.Report.Assess.{Config, do_report}
use gremlins.Command.Unleash.{
  Options, Tools, RunResult, ran, died, Finish, gives, panicked, after_engine, run_engine,
  run_rules, run_diff, run_program,
}

module _ (t : Tools) where
  open t use {sys, World, git, parse_diff, compile, files, mkdir_temp, remove_all, engine, clean}

  -- The coverage that `run` gathers.
  abbrev pub coverage_in : Options → GoModule → Text → World → CoverageResult × World
  coverage_in o mod_ work_dir w =
      run_coverage sys (new_coverage work_dir mod_ o.build_tags o.cover_pkg o.integration_mode) w

  -- What the results of a run rest on: the coverage gathered, the engine run with it, the diff and
  -- the rules, and the folders of the workers cleaned up after it.
  abbrev pub RestsOn : Options → GoModule → Text → Diff → Rules → World → Results → World → Type 0
  RestsOn o mod_ work_dir d rules w results w' =
      (p : Profile) × (elapsed : ℕ) × (w₁ : World) × (coverage_in o mod_ work_dir w
        ≡ (gathered p elapsed, w₁))
      × (let engine_ran =
            engine mod_ (record { cov = p; diff = d; exclusion = rules }) elapsed w₁ in
          (engine_ran.0 ≡ some results) × (clean engine_ran.1 ≡ w'))

  after_engine-ran :
      (r : Option Results × World) (results : Results) (w' : World)
      → after_engine t r ≡ (ran results, w')
      → (r.0 ≡ some results) × (clean r.1 ≡ w')
  unfolding after_engine
  after_engine-ran (some rs, w) results w' e = (ground arith, ground arith)
  after_engine-ran (none, w) results w' e = absurd (ground arith)

  run_engine-ran :
      (mod_ : GoModule) (d : Diff) (rules : Rules) (cov : CoverageResult × World)
      (results : Results) (w' : World)
      → run_engine t mod_ d rules cov ≡ (ran results, w')
      → (p : Profile) × (elapsed : ℕ) × (w₁ : World) × (cov ≡ (gathered p elapsed, w₁))
        × (let engine_ran =
              engine mod_ (record { cov = p; diff = d; exclusion = rules }) elapsed w₁ in
            (engine_ran.0 ≡ some results) × (clean engine_ran.1 ≡ w'))
  unfolding run_engine
  run_engine-ran mod_ d rules (gathered p elapsed, w) results w' e = (
    p,
    elapsed,
    w,
    refl,
    after_engine-ran (engine mod_ (record { cov = p; diff = d; exclusion = rules }) elapsed w)
        results w' e,
  )
  run_engine-ran mod_ d rules (download_failed, w) results w' e = absurd (ground arith)
  run_engine-ran mod_ d rules (coverage_failed, w) results w' e = absurd (ground arith)
  run_engine-ran mod_ d rules (profile_failed, w) results w' e = absurd (ground arith)

  run_rules-ran :
      (o : Options) (mod_ : GoModule) (work_dir : Text) (d : Diff) (r : RulesResult) (w w' : World)
      (results : Results)
      → run_rules t o mod_ work_dir d r w ≡ (ran results, w')
      → (rules : Rules) × (r ≡ Exclusion.ok rules) × RestsOn o mod_ work_dir d rules w results w'
  unfolding run_rules
  run_rules-ran o mod_ work_dir d (Exclusion.bad_value j) w w' results e = absurd (ground arith)
  run_rules-ran o mod_ work_dir d (Exclusion.ok rules) w w' results e =
      (rules, refl, run_engine-ran mod_ d rules (coverage_in o mod_ work_dir w) results w' e)

  run_diff-ran :
      (o : Options) (mod_ : GoModule) (work_dir : Text) (r : DiffResult) (w w' : World)
      (results : Results)
      → run_diff t o mod_ work_dir r w ≡ (ran results, w')
      → (d : Diff) × (rules : Rules) × (r ≡ Diff.ok d)
        × (Exclusion.new compile o.exclude_files ≡ Exclusion.ok rules)
        × RestsOn o mod_ work_dir d rules w results w'
  unfolding run_diff
  run_diff-ran o mod_ work_dir Diff.git_failed w w' results e = absurd (ground arith)
  run_diff-ran o mod_ work_dir Diff.parse_failed w w' results e = absurd (ground arith)
  run_diff-ran o mod_ work_dir (Diff.ok d) w w' results e =
      let (rules, good, rests) =
        run_rules-ran o mod_ work_dir d (Exclusion.new compile o.exclude_files) w w' results e in
      (d, rules, refl, good, rests)

  -- `run` has results only where the diff, the exclusion rules and the coverage all have no error;
  -- they are then those of the engine with exactly this diff, these rules, this coverage and its
  -- time, and the folders of the workers are cleaned up.
  pub run_program-ran :
      (o : Options) (mod_ : GoModule) (work_dir : Text) (w w' : World) (results : Results)
      → run_program t o mod_ work_dir w ≡ (ran results, w')
      → (d : Diff) × (rules : Rules) × (new_with_cmd git parse_diff o.diff_ref ≡ Diff.ok d)
        × (Exclusion.new compile o.exclude_files ≡ Exclusion.ok rules)
        × RestsOn o mod_ work_dir d rules w results w'
  unfolding run_program
  run_program-ran o mod_ work_dir w w' results e =
      run_diff-ran o mod_ work_dir (new_with_cmd git parse_diff o.diff_ref) w w' results e

  module _ (f : Float64) where
    -- The exit code of the program: that of `main`, or that of a panic.
    abbrev pub exit_status : Finish → ℕ
    exit_status (gives failure) = main_exit_code failure
    exit_status panicked = 2

    -- The exit code of what follows a run: 2 if a worker panics, that of the report if there are
    -- results and no cancellation is seen, 0 if one is, 1 if there are no results.
    abbrev pub code_after : Config f → Bool → RunResult → ℕ
    code_after c cancelled died = 2
    code_after c true (ran results) = 0
    code_after c false (ran results) = main_exit_code (do_report f c results).1
    code_after c cancelled _ = 1

    -- The folder of a run is removed after it, unless a worker panics.
    abbrev pub Removed : Text → RunResult → World → World → Type 0
    Removed work_dir died w₂ w' = w' ≡ w₂
    Removed work_dir _ w₂ w' = w' ≡ remove_all work_dir w₂

    -- `runUnleash` gets a folder for the run of a module.
    abbrev pub RunsIn : Config f → Options → Bool → InitResult → World → Finish × World → Type 0
    RunsIn c o cancelled r w (outcome, w') =
        (mod_ : GoModule) × (work_dir : Text) × (w₁ : World) × (r ≡ GoModule.found mod_)
        × (mkdir_temp w ≡ (some work_dir, w₁))
        × (let (result, w₂) = run_program t o mod_ work_dir w₁ in
            (exit_status outcome ≡ code_after c cancelled result) × Removed work_dir result w₂ w')

    -- It gets none.
    abbrev pub RunsNot : InitResult → World → Finish → Type 0
    RunsNot r w outcome =
        (exit_status outcome ≡ 1)
        × ((mod_ : GoModule) → r ≡ GoModule.found mod_ → (mkdir_temp w).0 ≡ none)
