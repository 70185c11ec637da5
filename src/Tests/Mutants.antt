-- ===== src/Tests/Mutants.antt =====
-- Mutants of a toy file, applied, tested and rolled back.
use gremlins.Prelude.{
  arith, pos, negsuc, ◌≡◌, ◌↔◌, refl, true, false, [], Option, none, some, Text, codes, text_eq,
  pos,
}
use gremlins.FilePath.{join}
use gremlins.Mutator.{arithmetic_base, killed}
use gremlins.Engine.Mappings.{mutated_token}
use gremlins.Engine.Node.{node_tok, set_tok}
use gremlins.Engine.Snippet.{extract_snippet}
use gremlins.Engine.TokenMutator.{
  TokenMutator, World, apply, rollback, target, write_failed, ApplyError, set_workdir,
}
use gremlins.Engine.TokenMutator.Laws.{
  apply_lem, rollback-apply, failed_apply_leaks, mutated, payload,
}
use gremlins.Engine.Executor.{
  State, new_executor_dealer, start, run_tests, TestRun, finished, exit_error,
}
use gremlins.Engine.Executor.Laws.{run_tests_status, start_outcome, start_restores}
use gremlins.Mutator.{Mutant, killed}
use gremlins.Engine.Executor.Sent.{Delivered, start-Delivered}
use gremlins.Engine.TokenMutator.{view}
use gremlins.Engine.Executor.{run_tests, get_test_args, test_env, test_dir}
use gremlins.Engine.TokenMutator.{set_status}
use gremlins.Prelude.{[]}
use gremlins.Engine.Executor.Bounds.{Timed, new_executor_dealer_lem}
use gremlins.Tests.Toy.{
  toy_os, toy_laws, toy_mutant, toy_world, toy_dealer, toy_settings, toy_format, toy_exec,
  toy_module,
}

abbrev plus : TokenMutator
plus = toy_mutant (codes "a.go") 0 arithmetic_base

-- `plus` applied to its file.
abbrev applied : Option ApplyError × TokenMutator × World toy_os
applied = apply toy_os plus toy_world

plus_fine : applied.0 ≡ none
unfolding apply extract_snippet mutated_token node_tok set_tok join text_eq
plus_fine = refl

apply_lem_example :
    toy_os.read_file (target plus) applied.2.disk ≡ (payload toy_os plus toy_world, true)
apply_lem_example =
    (apply_lem toy_os toy_laws plus applied.1 toy_world applied.2
      (λ i. (plus_fine i, applied.1, applied.2))).3

rollback-apply_example :
    (toy_os.read_file (target plus) (rollback toy_os applied.1 applied.2).2.disk
      ≡ toy_os.read_file (target plus) toy_world.disk)
unfolding rollback apply extract_snippet mutated_token node_tok set_tok join text_eq
rollback-apply_example =
    (rollback-apply toy_os toy_laws plus applied.1 (rollback toy_os applied.1 applied.2).1 toy_world
      applied.2 (rollback toy_os applied.1 applied.2).2 applied.2.disk refl refl).0

-- A mutant of a file that cannot be written, and one of another token of the same tree.
abbrev refused : TokenMutator
refused = toy_mutant (codes "ro") 1 arithmetic_base

failed_apply_leaks_example :
    (text : Text) × (toy_os.print_file 0 (mutated plus (mutated refused toy_world.ast)) ≡ some text)
    × (toy_os.read_file (target plus) (apply toy_os plus (apply toy_os refused toy_world).2).2.disk
        ≡ (text, true))
unfolding apply extract_snippet mutated_token node_tok set_tok join text_eq
failed_apply_leaks_example =
    failed_apply_leaks toy_os toy_laws refused plus (apply toy_os refused toy_world).1
      (apply toy_os plus (apply toy_os refused toy_world).2).1 toy_world
      (apply toy_os refused toy_world).2 (apply toy_os plus (apply toy_os refused toy_world).2).2
      write_failed (λ e. cc) refl refl

abbrev failing : TestRun
failing = record { ended = finished (exit_error (pos 1)); deadline_passed = false }

run_tests_status_example :
    (run_tests failing ≡ killed)
    ↔ ((false ≡ false) × (failing.ended ≡ finished (exit_error (pos 1))))
run_tests_status_example = (run_tests_status failing).1

abbrev pub at_start : State toy_os toy_dealer
at_start = record { world = toy_world; cache = 0; wg = 3 }

start_outcome_example :
    (start toy_os toy_dealer toy_format toy_exec toy_settings (codes "w") plus at_start).2.wg ≡ 2
start_outcome_example =
    (start_outcome toy_os toy_dealer toy_format toy_exec toy_settings (codes "w") plus at_start).0

abbrev moved : TokenMutator
moved = set_workdir (join (codes "w") (codes ".")) plus

start_restores_example :
    toy_os.read_file
      (target moved)
      (start toy_os toy_dealer toy_format toy_exec toy_settings
        (codes "w")
        plus
        at_start).2.world.disk
    ≡ toy_os.read_file (target moved) toy_world.disk
unfolding set_workdir apply rollback extract_snippet mutated_token node_tok set_tok join text_eq
start_restores_example =
    (start_restores toy_os toy_dealer toy_format toy_exec toy_settings toy_laws (codes "w")
      (codes "w") plus (apply toy_os moved toy_world).1 at_start (apply toy_os moved toy_world).2
      refl refl refl refl refl).0

-- A coverage run of a microsecond, four CPUs, integration mode, and the coefficient -2.
new_executor_dealer_lem_example :
    Timed 1000
      (negsuc 1)
      (new_executor_dealer toy_module 1000 [] false true (pos 4) (negsuc 1)).test_execution_time
new_executor_dealer_lem_example =
    (new_executor_dealer_lem toy_module 1000 [] false true (pos 4) (negsuc 1) (omega arith)).0

-- What the worker sends for a mutant that its tests kill.
abbrev killed_plus : Mutant
killed_plus = record (view (apply toy_os moved toy_world).1) { status = killed }

start-Delivered_example : Delivered false plus killed_plus
unfolding start set_workdir apply rollback extract_snippet mutated_token node_tok set_tok join
    text_eq run_tests get_test_args test_env set_status view test_dir
start-Delivered_example =
    start-Delivered toy_os toy_dealer toy_format toy_exec toy_settings (codes "w") plus at_start
      killed_plus refl
