-- ===== src/Command/Unleash/Counts.antt =====
-- From the options of the command to the counters of its report.
use gremlins.Prelude.{ℕ, pos, ◌+◌, ◌<◌, ◌≡◌, false, List, [], some, Text, length}
use gremlins.Mutator.{not_covered, skipped}
use gremlins.GoModule.{GoModule}
use gremlins.Diff
use gremlins.Diff.{Diff, new_with_cmd}
use gremlins.Exclusion
use gremlins.Exclusion.{Rules}
use gremlins.Coverage.Run.{gathered, new_coverage, Gathered, run_coverage_gathered}
use gremlins.Report.{Results, tally, empty_tally}
use gremlins.Engine.TokenMutator.{TokenMutator}
use gremlins.Engine.Totals.{is_found, is_to_test}
use gremlins.Engine.Walk.{CodeData}
use gremlins.Engine.Run.{Testing, SourceTree, Engine, Setup, Runs, new}
use gremlins.Engine.Run.Report.{searched, full_run_counts}
use gremlins.Command.Unleash.{Options, Tools, ran, run_program}
use gremlins.Command.Unleash.Outcome.{coverage_in, run_program-ran}

module _ (t : Tools) (dir_fs : Text → SourceTree) (x : Testing) (u : Setup) (o : Options)
    (mod_ : GoModule) where
  open t use {World, git, parse_diff, compile, engine}

  -- The data that `run` makes of the options: the diff, the rules, and the coverage that is gathered
  -- in its folder, with its time.
  abbrev pub IsCodeData : Text → World → CodeData → ℕ → World → Type 0
  IsCodeData work_dir w code elapsed w₁ =
      (new_with_cmd git parse_diff o.diff_ref ≡ Diff.ok code.diff)
      × (Exclusion.new compile o.exclude_files ≡ Exclusion.ok code.exclusion)
      × (coverage_in t o mod_ work_dir w ≡ (gathered code.cov elapsed, w₁))

  -- What the report counts of a full run, against a plain search.
  abbrev pub Counted : Engine → Results → List TokenMutator → Type 0
  Counted e results dropped =
      let counters = tally empty_tally results.mutants in
      (counters.not_covered_count ≡ searched u e (is_found not_covered))
      × (counters.skipped_count ≡ searched u e (is_found skipped))
      × (counters.killed_count
            + counters.lived_count
            + counters.timed_out_count
            + counters.not_viable_count
            + length dropped
          ≡ searched u e is_to_test)

  -- The engine of `run`, made by `New` with no option, is run by `Run` and not cancelled, wherever
  -- it has results.
  abbrev pub EngineRuns : Text → World → Type 0
  EngineRuns work_dir w =
      (code : CodeData) (elapsed : ℕ) (w₁ : World)
      → IsCodeData work_dir w code elapsed w₁
      → (results : Results) → (engine mod_ code elapsed w₁).0 ≡ some results
      → (dropped : List TokenMutator) × Runs x u (new dir_fs mod_ code []) results dropped

  -- Where a full run of the command has results and is not cancelled, with a CPU and a number of
  -- workers that is not negative: there are a diff, rules and a coverage, those of the options; the
  -- covered positions are those within a block that counts as run in the profile that the coverage
  -- run left; and the report of the results counts as not covered and as skipped the mutants of the
  -- module that a plain search finds to be with this data, and as killed, lived, timed out or not
  -- viable all its others but for those that could not be applied.
  pub run_program_counts :
      (work_dir : Text) (w w' : World) (results : Results) (n : ℕ)
      → 0 < u.cpus
      → u.workers_key ≡ pos n
      → x.settings.dry_run ≡ false
      → EngineRuns work_dir w
      → run_program t o mod_ work_dir w ≡ (ran results, w')
      → (code : CodeData) × (elapsed : ℕ) × (w₁ : World) × (dropped : List TokenMutator)
        × IsCodeData work_dir w code elapsed w₁
        × Gathered t.sys
            (new_coverage work_dir mod_ o.build_tags o.cover_pkg o.integration_mode)
            code.cov
            elapsed
            w
            w₁
        × Counted (new dir_fs mod_ code []) results dropped
  run_program_counts work_dir w w' results n cpus key full runs e =
      let (d, rules, diff_ok, rules_ok, rests) = run_program-ran t o mod_ work_dir w w' results e in
      let (p, elapsed, w₁, covered, engine_ran) = rests in
      let code : CodeData = record { cov = p; diff = d; exclusion = rules } in
      let (dropped, r) = runs code elapsed w₁ (diff_ok, rules_ok, covered) results (engine_ran.0) in
      (
        code,
        elapsed,
        w₁,
        dropped,
        (diff_ok, rules_ok, covered),
        run_coverage_gathered t.sys
            (new_coverage work_dir mod_ o.build_tags o.cover_pkg o.integration_mode) p elapsed w w₁
            covered,
        full_run_counts x u (new dir_fs mod_ code []) results dropped n cpus key full r,
      )
