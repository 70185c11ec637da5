-- ===== src/Tests/Runs.antt =====
-- Whole runs at a small input: one file with one `-`, of which one mutation is enabled.
use mathlib.Core.Path.{subst}
use gremlins.Prelude.{
  text_eq, ◌+◌, ◌≡◌, refl, sym, Bool, true, false, pos, List, [], ◌∷◌, codes, arith,
}
use gremlins.Mutator.{killed, Mutant, MutantType, arithmetic_base, not_covered, skipped, runnable}
use gremlins.Report.{Results, tally, empty_tally}
use gremlins.Prelude.GoText.{has_suffix}
use gremlins.Prelude.GoMap.{lookup}
use gremlins.Diff.{is_changed}
use gremlins.Coverage.Profile.{is_covered}
use gremlins.FilePath.{ext}
use gremlins.Exclusion.{is_file_excluded}
use gremlins.Engine.Mappings.{token_mutant_type}
use gremlins.Engine.Node.{new_token_node, node_tok}
use gremlins.Engine.Walk.{walk, run_on_file, find_mutations, new_mutant, mutation_status}
use gremlins.Engine.TokenMutator.{TokenMutator, view, set_status}
use gremlins.Engine.Pool.{size, workers}
use gremlins.Engine.Workers
use gremlins.Tests.Pools.{one_done, worker_to_end}
use gremlins.Engine.Totals.{is_found, is_to_test}
use gremlins.Engine.Run.{Engine, Setup, stream, Testing, Runs, run}
use gremlins.Engine.Run.Report.{searched, full_run_counts, dry_run_counts}
use gremlins.Tests.Toy.{
  toy_module, toy_ast, toy_os, toy_world, toy_dealer, toy_settings, toy_format, toy_exec,
}
use gremlins.Tests.Mutants.{at_start}
use gremlins.FilePath.{join}
use gremlins.Engine.Workers.{new_worker}
use gremlins.Engine.Workers.Folders.{worker_name}
use gremlins.Engine.Snippet.{extract_snippet}
use gremlins.Engine.TokenMutator.{apply, rollback, set_workdir}
use gremlins.Engine.Executor.{start, run_tests, get_test_args, test_env, test_dir}
use gremlins.Engine.Mappings.{mutated_token}
use gremlins.Engine.Node.{set_tok}
use gremlins.Tests.Sources.{code, source, minus}

abbrev only_arithmetic : MutantType → Bool
only_arithmetic arithmetic_base = true
only_arithmetic _ = false

abbrev pub small_engine : Engine
small_engine = record {
  fs = record { paths = codes "a.go" ∷ []; parse = source; ast = toy_ast };
  module_ = toy_module;
  code_data = code;
}

abbrev pub testing : Bool → Testing
testing dry = record {
  os = toy_os;
  dealer = toy_dealer;
  format = toy_format;
  exec = toy_exec;
  settings = record toy_settings { dry_run = dry };
}

abbrev pub setup : Setup
setup = record {
  enabled = only_arithmetic;
  cpus = 1;
  workers_key = pos 0;
  integration_mode = false;
}

abbrev pub the_mutant : TokenMutator
the_mutant = new_mutant toy_module code (source (codes "a.go")) minus arithmetic_base

one_mutant : stream setup small_engine ≡ the_mutant ∷ []
unfolding stream walk ext has_suffix is_file_excluded run_on_file new_token_node find_mutations
    token_mutant_type node_tok
one_mutant = refl

-- The pool of one worker tests the one mutant.
tests_it :
    Workers.Reach
      (Workers.init (codes "mutator") 1 (stream setup small_engine))
      (one_done (codes "mutator") the_mutant)
tests_it =
    subst
      (λ (ms : List TokenMutator).
        Workers.Reach (Workers.init (codes "mutator") 1 ms) (one_done (codes "mutator") the_mutant))
      (sym one_mutant) (worker_to_end (codes "mutator") the_mutant)

abbrev pub results_of : Mutant → Results
results_of v = record { module_name = codes "m"; mutants = v ∷ []; elapsed = 3 }

-- The mutant in the folder of its worker, and what the worker sends: where nothing is tested, and
-- where its tests kill it.
abbrev moved : TokenMutator
moved = set_workdir (join (codes "mutator-1") (codes ".")) the_mutant

abbrev pub untested_one : Mutant
untested_one = view moved

abbrev pub killed_one : Mutant
killed_one = record (view (apply toy_os moved toy_world).1) { status = killed }

dry_run : Runs (testing true) setup small_engine (results_of untested_one) []
unfolding size workers worker_name new_worker start set_workdir join view new_mutant is_changed
    is_covered lookup
dry_run =
    run (one_done (codes "mutator") the_mutant) (untested_one ∷ []) 3 refl refl tests_it refl refl
      refl ((0, ground arith, at_start, refl), tt) tt refl

pub full_run : Runs (testing false) setup small_engine (results_of killed_one) []
unfolding size workers worker_name new_worker start set_workdir apply rollback extract_snippet
    mutated_token node_tok set_tok join text_eq run_tests get_test_args test_env set_status view
    test_dir new_mutant mutation_status is_changed is_covered lookup
full_run =
    run (one_done (codes "mutator") the_mutant) (killed_one ∷ []) 3 refl refl tests_it refl refl
      refl ((0, ground arith, at_start, refl), tt) tt refl

full_run_counts_example :
    let t = tally empty_tally (killed_one ∷ []) in
    (t.not_covered_count ≡ searched setup small_engine (is_found not_covered))
    × (t.skipped_count ≡ searched setup small_engine (is_found skipped))
    × (t.killed_count + t.lived_count + t.timed_out_count + t.not_viable_count + 0
        ≡ searched setup small_engine is_to_test)
full_run_counts_example =
    full_run_counts (testing false) setup small_engine (results_of killed_one) [] 0 (omega arith)
      refl refl full_run

dry_run_counts_example :
    let t = tally empty_tally (untested_one ∷ []) in
    (t.runnable_count ≡ searched setup small_engine (is_found runnable))
    × (t.not_covered_count ≡ searched setup small_engine (is_found not_covered))
    × (t.skipped_count ≡ searched setup small_engine (is_found skipped))
    × (1 ≡ searched setup small_engine (λ m. true))
dry_run_counts_example =
    dry_run_counts (testing true) setup small_engine (results_of untested_one) [] 0 (omega arith)
      refl refl dry_run
