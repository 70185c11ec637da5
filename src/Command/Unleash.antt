-- ===== src/Command/Unleash.antt =====
-- cmd/unleash.go: `run` and `runUnleash`, from the path to the error that reaches `main` or a panic.
-- `Engine.Run` is a parameter here, modelled in Engine; so are the system and the tools behind the
-- parts. The messages of the errors are those of the source without the error that they wrap.
pub mod Outcome
pub mod Counts
use gremlins.Prelude.{ℕ, Bool, true, false, List, [], ◌∷◌, Option, none, some, Text, codes}
use gremlins.GoModule
use gremlins.GoModule.{GoModule, Files, InitResult, init_module}
use gremlins.Diff
use gremlins.Diff.{Diff, DiffFile, DiffResult, new_with_cmd}
use gremlins.Exclusion
use gremlins.Exclusion.{Rule, Rules, RulesResult}
use gremlins.Coverage.Profile.{Profile}
use gremlins.Coverage.Run.{
  System, CoverageResult, gathered, download_failed, coverage_failed, profile_failed, new_coverage,
  run_coverage,
}
use gremlins.Engine.Walk.{CodeData}
use gremlins.Execution.{Failure, fails}
use gremlins.Report.{Results}
use gremlins.Report.Float.{Float64}
use gremlins.Report.Assess.{Config, do_report}

-- The values of the configuration that `run` reads through its parts.
pub record Options : Type 0 where
  pub diff_ref : Text
  pub exclude_files : List Text
  pub build_tags : Text
  pub cover_pkg : Text
  pub integration_mode : Bool

-- What `run` and `runUnleash` use: git and its parser, the compiler of expressions, the system that
-- the coverage uses, the folders; `engine` is `Engine.Run` with the executors that the time of the
-- coverage run gives, `none` if a worker panics in it, and `clean` the deferred `Clean` of their
-- folders.
pub record Tools : Type 1 where
  pub sys : System
  pub open sys use {World}
  pub git : Text → Option Text
  pub parse_diff : Text → Option (List DiffFile)
  pub compile : Text → Option Rule
  pub files : Files
  pub mkdir_temp : World → Option Text × World
  pub remove_all : Text → World → World
  pub engine : GoModule → CodeData → ℕ → World → Option Results × World
  pub clean : World → World

pub data RunResult : Type 0 where
  ran : Results → RunResult
  diff_failed coverage_error : RunResult
  exclusion_failed : ℕ → RunResult
  -- A worker panics, which ends the program.
  died : RunResult

-- How `runUnleash` ends: it returns, or the program ends in a panic, and nothing deferred is run.
pub data Finish : Type 0 where
  gives : Option Failure → Finish
  panicked : Finish

module _ (t : Tools) where
  open t use {sys, World, git, parse_diff, compile, files, mkdir_temp, remove_all, engine, clean}

  -- `run`, once `Engine.Run` has returned or a worker in it has panicked.
  after_engine : Option Results × World → RunResult × World
  after_engine (some results, w) = (ran results, clean w)
  after_engine (none, w) = (died, w)

  -- `run`, once the coverage is gathered or has failed.
  run_engine : GoModule → Diff → Rules → CoverageResult × World → RunResult × World
  unfolding after_engine
  run_engine mod_ d rules (gathered p elapsed, w) =
      after_engine (engine mod_ (record { cov = p; diff = d; exclusion = rules }) elapsed w)
  run_engine mod_ d rules (download_failed, w) = (coverage_error, w)
  run_engine mod_ d rules (coverage_failed, w) = (coverage_error, w)
  run_engine mod_ d rules (profile_failed, w) = (coverage_error, w)

  -- `run`, once the diff is there.
  run_rules : Options → GoModule → Text → Diff → RulesResult → World → RunResult × World
  unfolding run_engine run_coverage new_coverage
  run_rules o mod_ work_dir d (Exclusion.bad_value j) w = (exclusion_failed j, w)
  run_rules o mod_ work_dir d (Exclusion.ok rules) w =
      run_engine mod_ d rules (
        run_coverage sys (new_coverage work_dir mod_ o.build_tags o.cover_pkg o.integration_mode) w)

  run_diff : Options → GoModule → Text → DiffResult → World → RunResult × World
  unfolding run_rules Exclusion.new
  run_diff o mod_ work_dir Diff.git_failed w = (diff_failed, w)
  run_diff o mod_ work_dir Diff.parse_failed w = (diff_failed, w)
  run_diff o mod_ work_dir (Diff.ok d) w =
      run_rules o mod_ work_dir d (Exclusion.new compile o.exclude_files) w

  -- `run`.
  unfoldable pub run_program : Options → GoModule → Text → World → RunResult × World
  unfolding run_diff new_with_cmd
  run_program o mod_ work_dir w =
      run_diff o mod_ work_dir (new_with_cmd git parse_diff o.diff_ref) w

  module _ (f : Float64) where
    -- How `runUnleash` ends after `run`, given whether it then sees the cancellation.
    abbrev pub after_run : Config f → Bool → RunResult → Finish
    after_run c cancelled diff_failed = gives (some (fails (codes "diff")))
    after_run c cancelled (exclusion_failed j) = gives (some (fails (codes "exclusion")))
    after_run c cancelled coverage_error = gives (some (fails (codes "failed to gather coverage")))
    after_run c true (ran results) = gives none
    after_run c false (ran results) = gives (do_report f c results).1
    after_run c cancelled died = panicked

    -- The deferred `cleanUp`, which a panic skips.
    clean_up : Text → Finish → World → World
    clean_up work_dir (gives failure) w = remove_all work_dir w
    clean_up work_dir panicked w = w

    -- `runUnleash` once the folder of the run is made.
    in_folder : Config f → Options → Bool → GoModule → Text → World → Finish × World
    unfolding run_program clean_up
    in_folder c o cancelled mod_ work_dir w =
        let (result, w') = run_program o mod_ work_dir w in
        let outcome = after_run c cancelled result in (outcome, clean_up work_dir outcome w')

    -- `runUnleash` once `os.MkdirTemp` has returned.
    made_folder : Config f → Options → Bool → GoModule → Option Text × World → Finish × World
    unfolding in_folder
    made_folder c o cancelled mod_ (none, w) =
        (gives (some (fails (codes "impossible to create the workdir"))), w)
    made_folder c o cancelled mod_ (some work_dir, w) = in_folder c o cancelled mod_ work_dir w

    with_module : Config f → Options → Bool → InitResult → World → Finish × World
    unfolding made_folder
    with_module c o cancelled GoModule.path_not_set w =
        (gives (some (fails (codes "not in a Go module"))), w)
    with_module c o cancelled GoModule.unreadable w =
        (gives (some (fails (codes "not in a Go module"))), w)
    with_module c o cancelled (GoModule.found mod_) w =
        made_folder c o cancelled mod_ (mkdir_temp w)

    -- The path that `runUnleash` takes: its argument, or the working directory.
    abbrev pub path_of : Text → List Text → Text
    path_of cwd [] = cwd
    path_of cwd (a ∷ args) = a

    -- `runUnleash`, in a working directory and with its arguments.
    unfoldable pub run_unleash :
        Config f → Options → Bool → Text → List Text → World → Finish × World
    unfolding with_module init_module
    run_unleash c o cancelled cwd args w =
        with_module c o cancelled (init_module files (path_of cwd args)) w
