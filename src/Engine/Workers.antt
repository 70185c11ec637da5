-- ===== src/Engine/Workers.antt =====
-- internal/engine/workerpool/workerpool.go again, with `executeTests` of internal/engine/engine.go:
-- now each worker has its name and its goroutine, and `Stop` closes the queue and waits for the
-- workers one by one. One constructor of `Step` is one action of one goroutine.
-- The channels: the one of the executors holds one; the output channel and the `stopCh` of a worker
-- have no buffer, so that a send and its receipt are one action.
pub mod Invariant
pub mod Refinement
pub mod Progress
pub mod Ending
pub mod Cancelled
pub mod Folders
pub mod None
use gremlins.Prelude.{
  ℕ, zero, suc, ◌+◌, ◌-◌, ◌≡◌, Bool, true, false, List, [], ◌∷◌, ◌++◌, Text, codes,
}
use gremlins.Engine.Pool.{Feeder, waiting, stopping, ended, holding}

-- `Worker`; its channel `stopCh` is part of where its goroutine is.
pub record Worker : Type 0 where
  pub name : Text
  pub id : ℕ

-- `NewWorker`.
unfoldable pub new_worker : ℕ → Text → Worker
new_worker id name = record { name = name; id = id }

-- The loop of `Initialize`: the workers from the number `i` on.
unfoldable pub workers_from : ℕ → Text → ℕ → List Worker
unfolding new_worker
workers_from i name zero = []
workers_from i name (suc n) = new_worker i name ∷ workers_from (suc i) name n

-- Where the goroutine of a worker is: it waits for an executor, is in the `Start` of one, has only
-- the deferred `wg.Done` of it to run, sends to `stopCh`, or has ended.
pub data At (J : Type 0) : Type 0 where
  receiving finishing telling gone : At J
  testing : J → At J

pub record System (J : Type 0) : Type 0 where
  pub stream : List J
  pub feeder : Feeder J
  pub queue : List J
  pub queue_closed : Bool
  pub workers : List (Worker × At J)
  pub results : List J
  pub failed : List J
  pub discarded : List J
  pub wg : ℕ
  pub cancelled : Bool
  pub closed : Bool

-- `Start` of the pool: the goroutine of each worker.
unfoldable pub start_workers : {J : Type 0} → List Worker → List (Worker × At J)
start_workers [] = []
start_workers (w ∷ ws) = (w, receiving) ∷ start_workers ws

-- `executeTests` once the pool of `n` workers is initialised and started.
unfoldable pub init : {J : Type 0} → Text → ℕ → List J → System J
unfolding start_workers workers_from
init name n stream = record {
  stream = stream;
  feeder = waiting;
  queue = [];
  queue_closed = false;
  workers = start_workers (workers_from 0 name n);
  results = [];
  failed = [];
  discarded = [];
  wg = 1;
  cancelled = false;
  closed = false;
}

abbrev pub AllGone : {J : Type 0} → List (Worker × At J) → Type 0
AllGone [] = Unit {0}
AllGone ((w, gone) ∷ ws) = AllGone ws
AllGone ((w, _) ∷ ws) = ⊥

pub data Step {J : Type 0} (s t : System J) : Type 0 where
  -- The feeder takes a mutant from the stream, and adds it to the wait group.
  take :
      (j : J) (js : List J)
      → s.feeder ≡ waiting
      → s.stream ≡ j ∷ js
      → s.cancelled ≡ false
      → t ≡ record s { stream = js; feeder = holding j; wg = suc s.wg }
      → Step s t
  -- `AppendExecutor`.
  append :
      (j : J)
      → s.feeder ≡ holding j
      → s.queue ≡ []
      → t ≡ record s { queue = j ∷ []; feeder = waiting }
      → Step s t
  -- The stream is closed, and the feeder ends. The queue stays open.
  exhaust :
      s.feeder ≡ waiting → s.stream ≡ [] → t ≡ record s { feeder = ended; wg = s.wg - 1 } → Step s t
  -- After a cancellation the feeder gives up the next mutant, and calls `Stop`.
  abort :
      (j : J) (js : List J)
      → s.feeder ≡ waiting
      → s.stream ≡ j ∷ js
      → s.cancelled ≡ true
      → t ≡ record s { stream = js; feeder = stopping; discarded = j ∷ s.discarded }
      → Step s t
  -- `Stop` closes the queue.
  shut :
      s.feeder ≡ stopping → s.queue_closed ≡ false → t ≡ record s { queue_closed = true } → Step s t
  -- A worker receives an executor from the queue, closed or not.
  receive :
      (j : J) (js : List J) (w : Worker) (before after : List (Worker × At J))
      → s.queue ≡ j ∷ js
      → s.workers ≡ before ++ (w, receiving) ∷ after
      → t ≡ record s { queue = js; workers = before ++ (w, testing j) ∷ after }
      → Step s t
  -- A worker sends its mutant, and the main loop receives it.
  deliver :
      (j : J) (w : Worker) (before after : List (Worker × At J))
      → s.workers ≡ before ++ (w, testing j) ∷ after
      → s.closed ≡ false
      → t ≡ record s { workers = before ++ (w, finishing) ∷ after; results = s.results ++ j ∷ [] }
      → Step s t
  -- A worker fails to apply its mutant, and sends nothing.
  fail :
      (j : J) (w : Worker) (before after : List (Worker × At J))
      → s.workers ≡ before ++ (w, testing j) ∷ after
      → t ≡ record s { workers = before ++ (w, finishing) ∷ after; failed = j ∷ s.failed }
      → Step s t
  -- The deferred `wg.Done`, and the next round of the worker's loop.
  done :
      (w : Worker) (before after : List (Worker × At J))
      → s.workers ≡ before ++ (w, finishing) ∷ after
      → t ≡ record s { workers = before ++ (w, receiving) ∷ after; wg = s.wg - 1 }
      → Step s t
  -- A worker finds the queue closed and empty.
  find_closed :
      (w : Worker) (before after : List (Worker × At J))
      → s.queue ≡ []
      → s.queue_closed ≡ true
      → s.workers ≡ before ++ (w, receiving) ∷ after
      → t ≡ record s { workers = before ++ (w, telling) ∷ after }
      → Step s t
  -- A goroutine of `Stop` receives from the `stopCh` of a worker, whose loop ends.
  tell :
      (w : Worker) (before after : List (Worker × At J))
      → s.queue_closed ≡ true
      → s.workers ≡ before ++ (w, telling) ∷ after
      → t ≡ record s { workers = before ++ (w, gone) ∷ after }
      → Step s t
  -- `Stop` returns, and the feeder ends.
  stopped :
      s.feeder ≡ stopping
      → s.queue_closed ≡ true
      → AllGone s.workers
      → t ≡ record s { feeder = ended; wg = s.wg - 1 }
      → Step s t
  -- `wg.Wait` returns, and the output channel is closed; then the main loop ends.
  close : s.wg ≡ 0 → s.closed ≡ false → t ≡ record s { closed = true } → Step s t
  -- A signal cancels the context.
  cancel : s.cancelled ≡ false → t ≡ record s { cancelled = true } → Step s t

pub data Reach {J : Type 0} (s : System J) : System J → Type 0 where
  here : Reach s s
  next : {t u : System J} → Reach s t → Step t u → Reach s u
