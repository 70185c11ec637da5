-- ===== src/Tests/Programs.antt =====
-- The whole command at the small file of Tests/Runs.
use gremlins.Prelude.{ℕ, ◌≡◌, refl, sym, ◌∙◌, false, List, [], some, Text, codes, arith}
use mathlib.Core.Path.{subst}
use gremlins.Report.{Results}
use gremlins.Diff.{Diff, new_with_cmd}
use gremlins.Exclusion
use gremlins.Exclusion.{Rules}
use gremlins.Coverage.Profile.{Profile}
use gremlins.Prelude.GoMap.{append_at, insert, lookup}
use gremlins.Prelude.GoText.{remove_all}
use gremlins.FilePath.{rel}
use gremlins.Coverage.Parse.{parse, add_blocks, remove_module_from_path}
use gremlins.Coverage.Run.{run_coverage, new_coverage, gathered, Gathered}
use gremlins.Engine.TokenMutator.{TokenMutator}
use gremlins.Engine.Walk.{CodeData}
use gremlins.Engine.Run.{SourceTree, Runs, new}
use gremlins.Command.Unleash.{Tools, ran, run_program}
use gremlins.Command.Unleash.Counts.{EngineRuns, IsCodeData, Counted, run_program_counts}
use gremlins.Tests.Toy.{toy_module}
use gremlins.Tests.Sources.{small_profile, profiles}
use gremlins.Tests.Commands.{toy_system, toy_tools, toy_options}
use gremlins.Tests.Runs.{small_engine, setup, testing, killed_one, results_of, full_run}

-- The command at this file, whose coverage run leaves a profile of one block.
abbrev killing_tools : Tools
killing_tools = record toy_tools {
  sys = record toy_system { parse_profiles = λ text. some profiles };
  engine = λ m code elapsed w. (some (results_of killed_one), w);
}

abbrev small_tree : Text → SourceTree
small_tree folder = small_engine.fs

full_run_of :
    (cov : Profile) (diff : Diff) (rules : Rules)
    → small_profile ≡ cov
    → ◌≡◌ {A = Diff} [] diff
    → ◌≡◌ {A = Rules} [] rules
    → Runs
        (testing false)
        setup
        (new small_tree toy_module (record { cov = cov; diff = diff; exclusion = rules }) [])
        (results_of killed_one)
        []
unfolding new
full_run_of cov diff rules c d r = rw (sym c, sym d, sym r) full_run

gathered-there :
    run_coverage killing_tools.sys (new_coverage (codes "/tmp") toy_module [] [] false) 0
    ≡ (gathered small_profile 3, 2)
unfolding run_coverage parse add_blocks append_at insert remove_module_from_path lookup rel
    new_coverage remove_all
gathered-there = refl

engine_runs :
    EngineRuns killing_tools small_tree
      (testing false)
      setup
      toy_options
      toy_module
      (codes "/tmp")
      0
unfolding Exclusion.new new_with_cmd
engine_runs code elapsed w₁ (d, r, c) results ran_ =
    let e = sym gathered-there ∙ c in
    (
      [],
      subst (λ (q : Results). Runs (testing false) setup (new small_tree toy_module code []) q [])
          (ground arith) (full_run_of code.cov code.diff code.exclusion (cc) (cc) (cc)),
    )

ran-there :
    run_program killing_tools toy_options toy_module (codes "/tmp") 0
    ≡ (ran (results_of killed_one), 2)
unfolding run_program Exclusion.new new_with_cmd run_coverage parse add_blocks append_at insert
    remove_module_from_path lookup rel new_coverage remove_all
ran-there = refl

run_program_counts_example :
    (code : CodeData) × (elapsed : ℕ) × (w₁ : ℕ) × (dropped : List TokenMutator) × IsCodeData
      killing_tools small_tree
      (testing false)
      setup
      toy_options
      toy_module
      (codes "/tmp")
      0
      code
      elapsed
      w₁
    × Gathered killing_tools.sys
        (new_coverage (codes "/tmp") toy_module [] [] false)
        code.cov
        elapsed
        0
        w₁
    × Counted killing_tools small_tree
        (testing false)
        setup
        toy_options
        toy_module
        (new small_tree toy_module code [])
        (results_of killed_one)
        dropped
run_program_counts_example =
    run_program_counts killing_tools small_tree (testing false) setup toy_options toy_module
      (codes "/tmp") 0 2 (results_of killed_one) 0 (omega arith) refl refl engine_runs ran-there
