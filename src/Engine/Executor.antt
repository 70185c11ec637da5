-- ===== src/Engine/Executor.antt =====
-- internal/engine/executor.go: how one mutant is tested by a worker.
-- Running a command, formatting a number or a duration, and the folders of the workers are
-- parameters. Durations are nanoseconds, an int64 of Go: the time of the coverage run, which is not
-- negative, is a natural number below 2 ^ 63, and what is made of it is ℤ, wrapped around to 64 bits.
pub mod Laws
pub mod Sent
pub mod Bounds
use gremlins.Prelude.{
  ℕ, ◌-◌, ℤ, pos, negsuc, Bool, true, false, not, ◌&&◌, ◌||◌, List, [], ◌∷◌, ◌++◌, Option, none,
  some, Text, codes, text_eq, ltb, ◌==◌, if◌then◌else◌,
}
use gremlins.Prelude.Int64 as Int64
use gremlins.Prelude.Int64.{is_zero}
use gremlins.FilePath.{join}
use gremlins.GoModule.{GoModule}
use gremlins.Mutator.{
  Mutant, Status, not_covered, runnable, skipped, lived, killed, not_viable, timed_out,
}
use gremlins.Engine.Workdir.{Dealer}
use gremlins.Engine.TokenMutator.{
  Os, TokenMutator, World, ApplyError, apply, rollback, set_status, set_workdir, view,
}

abbrev pub second : ℕ
second = 1000000000

abbrev pub default_timeout_coefficient : ℤ
default_timeout_coefficient = pos 5

-- The fields that `NewExecutorDealer` sets, and `NewExecutor` copies.
pub record Settings : Type 0 where
  pub module_ : GoModule
  pub build_tags : Text
  pub test_execution_time : ℤ
  pub dry_run : Bool
  pub integration_mode : Bool
  pub test_cpu : ℤ

-- `NewExecutorDealer`, from the values of the configuration.
unfoldable pub new_executor_dealer : GoModule → ℕ → Text → Bool → Bool → ℤ → ℤ → Settings
unfolding Int64.mul Int64.quot
new_executor_dealer mod_ elapsed build_tags dry_run integration_mode test_cpu coefficient = record {
  module_ = mod_;
  build_tags = build_tags;
  test_execution_time =
      Int64.mul (pos (if ltb elapsed second then second else elapsed))
        (if not (is_zero coefficient) then coefficient else default_timeout_coefficient);
  dry_run = dry_run;
  integration_mode = integration_mode;
  test_cpu =
      if not (is_zero test_cpu) && integration_mode then Int64.quot test_cpu test_cpu else test_cpu;
}

-- What `fmt` and `time` make of a number and of a duration.
pub record Format : Type 0 where
  pub decimal : ℤ → Text
  pub duration : ℤ → Text

-- `getTestArgs`.
unfoldable pub get_test_args : Format → Settings → Text → List Text
unfolding text_eq Int64.add
get_test_args fmt s pkg =
    codes "test" ∷ (if not (text_eq s.build_tags []) then codes "-tags" ∷ s.build_tags ∷ [] else [])
    ++ codes "-timeout"
      ∷ fmt.duration (Int64.add (pos 2000000000) s.test_execution_time)
      ∷ codes "-failfast"
      ∷ (if not (is_zero s.test_cpu) then codes "-cpu" ∷ fmt.decimal s.test_cpu ∷ [] else [])
    ++ (if s.integration_mode then codes "./..." else pkg) ∷ []

-- What `cmd.Wait` returns: nil, an `*exec.ExitError`, or another error.
pub data WaitError : Type 0 where
  no_error : WaitError
  exit_error : ℤ → WaitError
  other_error : WaitError

-- How the command went: it could not be started, the deadline came before its end, or it ended
-- first.
pub data Ended : Type 0 where
  not_started deadline_came : Ended
  finished : WaitError → Ended

-- A run, with whether the deadline had passed when `runTests` asked for it.
pub record TestRun : Type 0 where
  pub ended : Ended
  pub deadline_passed : Bool

run_ended : Ended → WaitError
run_ended not_started = other_error
run_ended deadline_came = other_error
run_ended (finished e) = e

-- `run`: `ctx.Err()` is no `ExitError`, nor is the error of `cmd.Start`.
unfoldable pub run : TestRun → WaitError
unfolding run_ended
run r = run_ended r.ended

-- `ctx.Err()` is `DeadlineExceeded`; once the deadline came, it stays so.
abbrev pub is_late : TestRun → Bool
is_late r = elim r.ended [ deadline_came ↦ true | _ ↦ r.deadline_passed ]

-- `getTestFailedStatus`.
unfoldable pub get_test_failed_status : ℤ → Status
get_test_failed_status (pos n) = if n == 1 then killed else if n == 2 then not_viable else lived
get_test_failed_status (negsuc n) = lived

status_of_error : WaitError → Status
unfolding get_test_failed_status
status_of_error no_error = lived
status_of_error (exit_error code) = get_test_failed_status code
status_of_error other_error = lived

-- `runTests`, from the run of the command on.
unfoldable pub run_tests : TestRun → Status
unfolding run status_of_error
run_tests r = if is_late r then timed_out else status_of_error (run r)

abbrev pub is_untested : Status → Bool
is_untested not_covered = true
is_untested skipped = true
is_untested _ = false

-- How `Start` ended: the mutant was sent to the output channel, an error was logged and the mutant
-- was not sent, or the worker panicked.
pub data Finish : Type 0 where
  sent : Mutant → Finish
  dropped panicked : Finish

module _ (os : Os) (dealer : Dealer os.Disk) where
  -- The command run with its arguments, what is added to its environment, and its folder; it may
  -- change the disk.
  abbrev pub Exec : Type 0
  Exec = List Text → List Text → Text → os.Disk → TestRun × os.Disk

  -- What an executor finds and leaves: the trees and the disk, the cache of folders, and the wait
  -- group's counter.
  pub record State : Type 0 where
    pub world : World os
    pub cache : dealer.Cache
    pub wg : ℕ

  -- What `runTests` adds to the environment of the command, after that of the program.
  unfoldable pub test_env : Text → List Text
  test_env tmp = (codes "GOTMPDIR=" ++ tmp) ∷ []

  -- The folder in which the tests run.
  unfoldable pub test_dir : Settings → TokenMutator → Text → Text
  test_dir s m root_dir = if s.integration_mode then root_dir else m.work_dir

  -- `Start` once the mutation is applied: the tests, and the rollback, whose error is logged.
  after_apply :
      Format
      → Exec
      → Settings
      → Text
      → Text
      → TokenMutator
      → World os
      → Finish × TokenMutator × World os
  unfolding run_tests get_test_args test_env test_dir set_status view
  after_apply fmt exec s tmp root_dir m w =
      let (r, disk') =
        exec (get_test_args fmt s m.pkg) (test_env tmp) (test_dir s m root_dir) w.disk in
      let m' = set_status (run_tests r) m in
      let (fine, m'', w') = rollback os m' (record w { disk = disk' }) in (sent (view m''), m'', w')

  -- `Start` once the folder is there; `tmp` is the `WorkDir` of the dealer.
  test_mutant :
      Format
      → Exec
      → Settings
      → Text
      → Text
      → TokenMutator
      → World os
      → Finish × TokenMutator × World os
  unfolding after_apply view
  test_mutant fmt exec s tmp root_dir m w =
      let (failed, m', w') = apply os m w in
      let tested = after_apply fmt exec s tmp root_dir m' w' in
      if is_untested m.status || s.dry_run
      then (sent (view m), m, w)
      else elim failed [ some e ↦ (dropped, m', w') | none ↦ tested ]

  -- `Start`. The deferred `wg.Done` runs on every path, the panic included.
  unfoldable pub start :
      Format → Exec → Settings → Text → TokenMutator → State → Finish × TokenMutator × State
  unfolding test_mutant set_workdir
  start fmt exec s worker m st =
      let (folder, cache', disk') = dealer.get worker st.cache st.world.disk in
      let w = record st.world { disk = disk' } in
      elim folder [
        | none ↦ (panicked, m, record { world = w; cache = cache'; wg = st.wg - 1 })
        | some root_dir ↦
            let (finish, m', w') =
              test_mutant fmt exec s (dealer.work_dir cache') root_dir
                (set_workdir (join root_dir s.module_.calling_dir) m) w in
            (finish, m', record { world = w'; cache = cache'; wg = st.wg - 1 })
      ]
