-- ===== src/Tests/Processes.antt =====
-- A command of two processes that ends before its deadline, and one that does not.
use gremlins.Prelude.{◌≡◌, ◌≢◌, refl, ◌⊎◌, true, false, ◌≤◌}
use gremlins.Engine.Executor.{WaitError, no_error, TestRun, run, is_late}
use gremlins.Engine.Process.{
  State, unix, running, absent, returned, init, begin, wait, finish, kill, release, fork, exit,
  pass, Reach, here, own, other, kill_process_group, setup_process_group,
}
use gremlins.Engine.Process.Orphans.{no_orphans, run_refines, Tells}
use gremlins.Engine.Process.Timeout.{late_CanMove, CanMove, own_steps}

-- The first process starts a child, and ends with no error.
abbrev in_time : (s : State) × Reach unix init s × (s.place ≡ returned no_error)
unfolding kill_process_group setup_process_group
in_time = (
  _,
  own
      (own
        (own
          (own
            (other (other (own here (begin refl refl)) (fork refl refl)) (exit no_error refl refl))
            (wait _ refl refl refl))
          (finish _ refl refl refl))
        (kill _ refl refl))
      (release _ refl refl),
  refl,
)

no_orphans_example :
    (in_time.0.group.leader ≢ running)
    × (in_time.0.group.children ≡ false)
    × ((in_time.0.group.leader ≡ absent) ⊎ (in_time.0.released ≡ true))
no_orphans_example = no_orphans no_error in_time.1 in_time.2

run_refines_example :
    (r : TestRun) × (run r ≡ no_error)
    × (r.deadline_passed ≡ false)
    × (is_late r ≡ false)
    × Tells r.ended in_time.0
unfolding in_time
run_refines_example = run_refines unix no_error in_time.1 in_time.2

-- The deadline passes while the first process runs.
abbrev too_late : (s : State) × Reach unix init s × (s.deadline ≡ true)
too_late = (_, other (own here (begin refl refl)) (pass refl), refl)

late_CanMove_example :
    (((e : WaitError) × (too_late.0.place ≡ returned e)) ⊎ CanMove unix too_late.0)
    × (own_steps too_late.1 ≤ 6)
late_CanMove_example = late_CanMove unix too_late.1 too_late.2
