-- ===== src/Tests/Workers.antt =====
-- Workers on the tree of one file, with its mutex.
use gremlins.Prelude.{ℕ, ◌≡◌, ◌⊎◌, refl}
use gremlins.Token.{add}
use gremlins.Mutator.{arithmetic_base}
use gremlins.Engine.Node.{Store}
use gremlins.Engine.Locks.{
  Job, System, idle, init, pick, Reach, here, next, miss, make, lock, defer_unlock, mutate, write,
  restore, unlock,
}
use gremlins.Engine.Locks.Spec.{Spec, Runs}
use gremlins.Engine.Locks.Refinement.{
  Refines, Reach-Runs, one_at_a_time, Reach_moves, CanMove, Waits,
}

abbrev trees : ℕ → Store
trees f a = add

abbrev job : Job
job = record { file = 0; node = record { tok = 1; tok_pos = 3 }; mutant_type = arithmetic_base }

-- Worker 4 has the mutex.
abbrev has_lock : (s : System) × Reach (init trees) s
has_lock = (
  _,
  next (next (next here (pick 4 (miss {j = job} refl))) (pick 4 (make refl))) (pick 4 (lock refl)),
)

-- And applies its mutation.
abbrev applied : (s : System) × Reach (init trees) s
applied = (
  _,
  next
      (next
        (next (next (next has_lock.1 (pick 4 (defer_unlock refl))) (pick 4 mutate)) (pick 4 write))
        (pick 4 restore))
      (pick 4 unlock),
)

Reach-Runs_example : (a : Spec) × Runs trees a × Refines applied.0 a
Reach-Runs_example = Reach-Runs trees applied.1

one_at_a_time_example : ◌≡◌ {A = ℕ} 4 4
one_at_a_time_example = one_at_a_time trees 4 4 0 has_lock.1 refl refl

Reach_moves_example :
    (has_lock.0.pc 4 ≡ idle) ⊎ CanMove has_lock.0.mem (has_lock.0.pc 4) ⊎ Waits has_lock.0 4
Reach_moves_example = Reach_moves trees 4 has_lock.1
