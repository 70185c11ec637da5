-- ===== src/Engine/Locks.antt =====
-- internal/engine/tokenmutator.go: `Apply` run by several workers on shared syntax trees, with the
-- table of locks of `fileLock` and `cachedLock`.
-- Workers, mutexes and file names are natural numbers: the program compares file names and does
-- nothing else with them here. A tree is the store of its token fields, one for each file. One
-- constructor of `Move` is one action of one worker, and a history is any interleaving of them; each
-- use of the table under its own mutex is one action, and so is printing a tree and writing it.
pub mod Spec
pub mod Invariant
pub mod Preservation
pub mod Refinement
use gremlins.Prelude.{
  ℕ, suc, ◌≡◌, Bool, true, false, List, [], ◌∷◌, Option, none, some, ◌==◌, if◌then◌else◌,
}
use gremlins.Mutator.{MutantType}
use gremlins.Engine.Mappings.{mutated_token}
use gremlins.Engine.Node.{Store, NodeToken, node_tok, set_tok}
use gremlins.Token.{Token}

-- The mutant that a worker applies.
pub record Job : Type 0 where
  pub file : ℕ
  pub node : NodeToken
  pub mutant_type : MutantType

-- The token that `Apply` sets: one read of the tree, one write.
unfoldable pub mutate_tree : Job → Store → Store
mutate_tree j tree = set_tok j.node (mutated_token j.mutant_type (node_tok j.node tree)) tree

abbrev pub update {ℓ} : {A : Type ℓ} → (ℕ → A) → ℕ → A → ℕ → A
update f i a = λ k. if i == k then a else f k

-- What the workers share: the trees, the table `locks` with the number of mutexes made so far, which
-- of them are locked, and the trees written so far, the last one first.
pub record Shared : Type 0 where
  pub trees : ℕ → Store
  pub locks : ℕ → Option ℕ
  pub made : ℕ
  pub held : ℕ → Bool
  pub written : List (Job × Store)

-- Where a worker is in `Apply`, with its mutex, then that of the deferred `Unlock`, and the token
-- that it has saved.
pub data Pc : Type 0 where
  idle : Pc
  missed : Job → Pc
  found locked : Job → ℕ → Pc
  inside leaving : Job → ℕ → ℕ → Pc
  mutated printed : Job → ℕ → ℕ → Token → Pc

pub data Move (m : Shared) : Pc → Shared → Pc → Type 0 where
  -- `cachedLock`.
  hit : {j : Job} {l : ℕ} → m.locks j.file ≡ some l → Move m idle m (found j l)
  miss : {j : Job} → m.locks j.file ≡ none → Move m idle m (missed j)
  -- `fileLock` after a miss asks the table again, and makes a mutex only if there is still none.
  hit_late : {j : Job} {l : ℕ} → m.locks j.file ≡ some l → Move m (missed j) m (found j l)
  make :
      {j : Job}
      → m.locks j.file ≡ none
      → Move m
          (missed j)
          (record m { locks = update m.locks j.file (some m.made); made = suc m.made })
          (found j m.made)
  -- `Lock` waits until the mutex is free.
  lock :
      {j : Job} {l : ℕ}
      → m.held l ≡ false
      → Move m (found j l) (record m { held = update m.held l true }) (locked j l)
  -- The mutex of the deferred `Unlock` is asked for at once.
  defer_unlock :
      {j : Job} {l l' : ℕ} → m.locks j.file ≡ some l' → Move m (locked j l) m (inside j l l')
  read_fails : {j : Job} {l l' : ℕ} → Move m (inside j l l') m (leaving j l l')
  mutate :
      {j : Job} {l l' : ℕ}
      → Move m
          (inside j l l')
          (record m { trees = update m.trees j.file (mutate_tree j (m.trees j.file)) })
          (mutated j l l' (node_tok j.node (m.trees j.file)))
  write :
      {j : Job} {l l' : ℕ} {t : Token}
      → Move m
          (mutated j l l' t)
          (record m { written = (j, m.trees j.file) ∷ m.written })
          (printed j l l' t)
  -- An error of the printer or of the write: `Apply` returns with the token still mutated.
  write_fails : {j : Job} {l l' : ℕ} {t : Token} → Move m (mutated j l l' t) m (leaving j l l')
  restore :
      {j : Job} {l l' : ℕ} {t : Token}
      → Move m
          (printed j l l' t)
          (record m { trees = update m.trees j.file (set_tok j.node t (m.trees j.file)) })
          (leaving j l l')
  unlock :
      {j : Job} {l l' : ℕ}
      → Move m (leaving j l l') (record m { held = update m.held l' false }) idle

-- A state: what is shared, and where each worker is.
pub record System : Type 0 where
  pub mem : Shared
  pub pc : ℕ → Pc

pub data Step (s : System) : System → Type 0 where
  pick :
      (i : ℕ) {m : Shared} {p : Pc}
      → Move s.mem (s.pc i) m p
      → Step s (record { mem = m; pc = update s.pc i p })

-- At the start the table is empty, and no worker has begun.
abbrev pub init : (ℕ → Store) → System
init trees = record {
  mem = record { trees = trees; locks = λ _. none; made = 0; held = λ _. false; written = [] };
  pc = λ _. idle;
}

pub data Reach (s : System) : System → Type 0 where
  here : Reach s s
  next : {t u : System} → Reach s t → Step t u → Reach s u
