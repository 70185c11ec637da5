-- ===== src/Engine/Run.antt =====
-- internal/engine/engine.go: `New` with its options, and `Run` as a whole: the stream that the walk
-- sends, the pool that tests it, and the results. A run has many outcomes, so it is a relation.
pub mod Report
use gremlins.Prelude.{ℕ, ◌<◌, ℤ, ◌≡◌, Bool, true, false, ◌||◌, List, [], ◌∷◌, Text, codes}
use gremlins.FilePath.{join}
use gremlins.Mutator.{MutantType, Mutant}
use gremlins.GoModule.{GoModule}
use gremlins.Report.{Results}
use gremlins.Engine.Node.{Store}
use gremlins.Engine.TokenMutator.{Os, TokenMutator}
use gremlins.Engine.Executor.{Format, Exec, Settings, State, Finish, sent, dropped, start}
use gremlins.Engine.Workdir.{Dealer}
use gremlins.Engine.Pool.{size, workers}
use gremlins.Engine.Walk.{CodeData, SourceFile, walk}
use gremlins.Engine.Workers.{System, Reach, init, new_worker}
use gremlins.Engine.Workers.Folders.{worker_name}

-- A file system as `Run` sees it: the paths that the walk visits, the file parsed from each, and the
-- tokens of the trees.
pub record SourceTree : Type 0 where
  pub paths : List Text
  pub parse : Text → SourceFile
  pub ast : Store

-- `Engine`, but for its logger, its dealer and the channel of the stream.
pub record Engine : Type 0 where
  pub fs : SourceTree
  pub module_ : GoModule
  pub code_data : CodeData

-- `WithDirFs`.
unfoldable pub with_dir_fs : SourceTree → Engine → Engine
with_dir_fs dir_fs e = record e { fs = dir_fs }

unfoldable pub apply_options : List (Engine → Engine) → Engine → Engine
apply_options [] e = e
apply_options (o ∷ os) e = apply_options os (o e)

-- `New`; `dir_fs` is `os.DirFS`.
unfoldable pub new : (Text → SourceTree) → GoModule → CodeData → List (Engine → Engine) → Engine
unfolding apply_options
new dir_fs mod_ code os =
    apply_options os
      (record { fs = dir_fs (join mod_.root mod_.calling_dir); module_ = mod_; code_data = code })

-- What `Run` reads besides: the enabled types, the number of CPUs, and the values of the
-- configuration that give the number of workers.
pub record Setup : Type 0 where
  pub enabled : MutantType → Bool
  pub cpus : ℕ
  pub workers_key : ℤ
  pub integration_mode : Bool

-- The stream of mutants.
unfoldable pub stream : Setup → Engine → List TokenMutator
stream u e = walk e.module_ e.code_data u.enabled e.fs.parse e.fs.ast e.fs.paths

-- What the executors of a run have in common: the system, the dealer of their folders, and what
-- `NewExecutorDealer` sets.
pub record Testing : Type 1 where
  pub os : Os
  pub dealer : Dealer os.Disk
  pub format : Format
  pub exec : Exec os dealer
  pub settings : Settings

-- The `Start` of the executor of a mutant, by one of the first `n` workers, ends in a way. What that
-- worker finds is left open.
abbrev pub StartEnds : Testing → ℕ → TokenMutator → Finish → Type 0
StartEnds x n m finish =
    (i : ℕ) × (i < n)
    × (st : State x.os x.dealer) × (let worker =
          worker_name x.format (new_worker i (codes "mutator")) in
        (start x.os x.dealer x.format x.exec x.settings worker m st).0 ≡ finish)

-- Mutants sent one for one.
abbrev pub AllSent : Testing → ℕ → List TokenMutator → List Mutant → Type 0
AllSent x n [] [] = Unit {0}
AllSent x n (m ∷ ms) (v ∷ vs) = StartEnds x n m (sent v) × AllSent x n ms vs
AllSent x n _ _ = ⊥

abbrev pub AllDropped : Testing → ℕ → List TokenMutator → Type 0
AllDropped x n [] = Unit {0}
AllDropped x n (m ∷ ms) = StartEnds x n m dropped × AllDropped x n ms

-- `Run`, not cancelled: the pool works on the stream until the output channel is closed, each mutant
-- that is delivered is one that the `Start` of its executor sends for one of the workers, and the
-- results have the name of the module and the time. `given_up` are the mutants that could not be
-- applied. What one executor leaves for the next is not kept, so there may be more results here than
-- `Run` has.
pub data Runs (x : Testing) (u : Setup) (e : Engine) (results : Results)
    (given_up : List TokenMutator) : Type 0 where
  run :
      (s : System TokenMutator) (vs : List Mutant) (elapsed : ℕ)
      → x.settings.module_ ≡ e.module_
      → x.settings.integration_mode ≡ u.integration_mode
      → Reach
          (init
            (codes "mutator")
            (workers (size u.cpus u.workers_key u.integration_mode))
            (stream u e))
          s
      → s.closed ≡ true
      → s.cancelled ≡ false
      → s.failed ≡ given_up
      → AllSent x (workers (size u.cpus u.workers_key u.integration_mode)) s.results vs
      → AllDropped x (workers (size u.cpus u.workers_key u.integration_mode)) given_up
      → results ≡ record { module_name = e.module_.name; mutants = vs; elapsed = elapsed }
      → Runs x u e results given_up
