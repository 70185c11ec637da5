-- ===== src/Engine/Pool.antt =====
-- internal/engine/workerpool/workerpool.go, with `executeTests` of internal/engine/engine.go: the
-- goroutines that test the mutants of a stream. One constructor of `Step` is one action of one
-- goroutine, so a history is any interleaving of them.
-- The output channel has no buffer: a delivery is the send of a worker together with the receipt by
-- the main loop. The channel of the executors holds one.
pub mod Invariant
pub mod Progress
pub mod Size
use gremlins.Prelude.{
  ℕ, zero, suc, ◌+◌, ◌-◌, ◌/◌, ℤ, pos, negsuc, ◌≡◌, Bool, true, false, ◌&&◌, List, [], ◌∷◌, ◌++◌,
  ltb, ◌==◌, if◌then◌else◌,
}

-- `size`: a number of workers that is 0 becomes the number of CPUs; integration mode halves a
-- number above 1.
unfoldable pub size : ℕ → ℤ → Bool → ℤ
size cpus (pos n) integration =
    let w = if n == 0 then cpus else n in if integration && ltb 1 w then pos (w / 2) else pos w
size cpus (negsuc n) integration = negsuc n

-- The workers that `Initialize` makes: the loop makes none for a negative size.
unfoldable pub workers : ℤ → ℕ
workers (pos n) = n
workers (negsuc n) = 0

-- The goroutine that feeds the pool: it waits for the next mutant, holds one that it appends to the
-- queue, stops the pool after a cancellation, or has ended.
pub data Feeder (J : Type 0) : Type 0 where
  waiting stopping ended : Feeder J
  holding : J → Feeder J

-- `stream` is what the walk has still to send. `finishing` counts the workers whose executor has
-- sent its mutant, or failed to apply it, and has not yet run the deferred `wg.Done`.
pub record Pool (J : Type 0) : Type 0 where
  pub stream : List J
  pub feeder : Feeder J
  pub queue : List J
  pub running : List J
  pub finishing : ℕ
  pub idle : ℕ
  pub results : List J
  pub failed : List J
  pub discarded : List J
  pub wg : ℕ
  pub cancelled : Bool
  pub closed : Bool

-- `executeTests` before its goroutines run: the pool has `n` idle workers, and the wait group counts
-- the feeder.
unfoldable pub init : {J : Type 0} → ℕ → List J → Pool J
init n stream = record {
  stream = stream;
  feeder = waiting;
  queue = [];
  running = [];
  finishing = 0;
  idle = n;
  results = [];
  failed = [];
  discarded = [];
  wg = 1;
  cancelled = false;
  closed = false;
}

pub data Step {J : Type 0} (s t : Pool J) : Type 0 where
  -- The feeder takes a mutant from the stream, and adds it to the wait group.
  take :
      (j : J) (js : List J)
      → s.feeder ≡ waiting
      → s.stream ≡ j ∷ js
      → s.cancelled ≡ false
      → t ≡ record s { stream = js; feeder = holding j; wg = suc s.wg }
      → Step s t
  -- `AppendExecutor`: the queue holds one executor.
  append :
      (j : J)
      → s.feeder ≡ holding j
      → s.queue ≡ []
      → t ≡ record s { queue = j ∷ []; feeder = waiting }
      → Step s t
  -- The stream is closed, and the feeder ends.
  exhaust :
      s.feeder ≡ waiting → s.stream ≡ [] → t ≡ record s { feeder = ended; wg = s.wg - 1 } → Step s t
  -- After a cancellation the feeder gives up the next mutant, and stops the pool.
  abort :
      (j : J) (js : List J)
      → s.feeder ≡ waiting
      → s.stream ≡ j ∷ js
      → s.cancelled ≡ true
      → t ≡ record s { stream = js; feeder = stopping; discarded = j ∷ s.discarded }
      → Step s t
  -- `Stop` returns once every worker has found the closed queue empty.
  stopped :
      s.feeder ≡ stopping
      → s.queue ≡ []
      → s.running ≡ []
      → s.finishing ≡ 0
      → t ≡ record s { feeder = ended; wg = s.wg - 1 }
      → Step s t
  -- An idle worker, any of them, takes an executor from the queue.
  start :
      (j : J) (js before after : List J) (n : ℕ)
      → s.queue ≡ j ∷ js
      → s.running ≡ before ++ after
      → s.idle ≡ suc n
      → t ≡ record s { queue = js; running = before ++ j ∷ after; idle = n }
      → Step s t
  -- A worker sends its mutant, and the main loop receives it.
  deliver :
      (j : J) (before after : List J)
      → s.running ≡ before ++ j ∷ after
      → s.closed ≡ false
      → t ≡ record s {
        running = before ++ after;
        finishing = suc s.finishing;
        results = s.results ++ j ∷ [];
      }
      → Step s t
  -- A worker fails to apply its mutant, and sends nothing.
  fail :
      (j : J) (before after : List J)
      → s.running ≡ before ++ j ∷ after
      → t
        ≡ record s { running = before ++ after; finishing = suc s.finishing; failed = j ∷ s.failed }
      → Step s t
  -- The deferred `wg.Done`; the worker is idle again.
  done :
      (n : ℕ)
      → s.finishing ≡ suc n
      → t ≡ record s { finishing = n; idle = suc s.idle; wg = s.wg - 1 }
      → Step s t
  -- `wg.Wait` returns, and the output channel is closed; then the main loop ends.
  close : s.wg ≡ 0 → s.closed ≡ false → t ≡ record s { closed = true } → Step s t
  -- A signal cancels the context.
  cancel : s.cancelled ≡ false → t ≡ record s { cancelled = true } → Step s t

pub data Reach {J : Type 0} (s : Pool J) : Pool J → Type 0 where
  here : Reach s s
  next : {t u : Pool J} → Reach s t → Step t u → Reach s u
