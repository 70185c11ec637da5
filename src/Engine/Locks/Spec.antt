-- ===== src/Engine/Locks/Spec.antt =====
-- What the locks are for: applications one after the other, each a single action.
use gremlins.Prelude.{ℕ, List, [], ◌∷◌}
use gremlins.Engine.Node.{Store}
use gremlins.Engine.Locks.{Job, mutate_tree, update}

pub record Spec : Type 0 where
  pub trees : ℕ → Store
  pub written : List (Job × Store)

pub data Apply (a : Spec) : Spec → Type 0 where
  -- An application with no error writes the tree with its own mutation, and leaves the trees alone.
  fine :
      (j : Job) → Apply a (record a { written = (j, mutate_tree j (a.trees j.file)) ∷ a.written })
  -- One that fails to print or write leaves its mutation in the tree.
  fails :
      (j : Job)
      → Apply a (record a { trees = update a.trees j.file (mutate_tree j (a.trees j.file)) })

-- A sequence of applications, from the trees as they were parsed.
pub data Runs (trees : ℕ → Store) : Spec → Type 0 where
  start : Runs trees (record { trees = trees; written = [] })
  after : {a b : Spec} → Runs trees a → Apply a b → Runs trees b
