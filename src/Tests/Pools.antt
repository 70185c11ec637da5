-- ===== src/Tests/Pools.antt =====
-- A pool with one worker and one mutant, run to its end; and the folders of two workers.
use gremlins.Prelude.{
  ℤ, pos, negsuc, ℕ, suc, ◌+◌, ◌*◌, ◌≤◌, ◌<◌, ◌≡◌, ◌≢◌, refl, ◌⊎◌, Bool, true, false, [], ◌∷◌,
  Option, some, Text, codes, text_eq, length, ◌==◌, arith,
}
use gremlins.Prelude.GoMap.{lookup, insert}
use gremlins.Engine.Pool.{
  holding, workers, size, Pool, init, Reach, here, next, take, append, start, deliver, done,
  exhaust, close, ended,
}
use gremlins.Engine.Pool.Invariant.{count, closed_complete}
use gremlins.Engine.Workers.Ending as Ending
use gremlins.Engine.Executor.{Format}
use gremlins.Engine.Workdir.{new_cached_dealer}
use gremlins.Engine.Workdir.Shared
use gremlins.Engine.Workers
use gremlins.Engine.Workers.{new_worker, workers_from, start_workers, receiving}
use gremlins.Engine.Workers.Cancelled.{few_after_cancel}
use gremlins.Engine.Workers.None.{negative_workers_hang}
use gremlins.Engine.Workers.Refinement.{forget, Reach-forget}
use gremlins.Engine.Workers.Progress as WorkersCan
use gremlins.Engine.Workers.Folders.{worker_name, folders_apart}
use gremlins.Engine.Workdir.{Fs, CachedDealer, from_cache, set_cache, made}
use gremlins.Engine.Workdir.Laws.{FsLaws, Inv as DealerInv}

-- The pool once its main loop has ended.
abbrev pub finished : {J : Type 0} → J → Pool J
finished j = record {
  stream = [];
  feeder = ended;
  queue = [];
  running = [];
  finishing = 0;
  idle = 1;
  results = j ∷ [];
  failed = [];
  discarded = [];
  wg = 0;
  cancelled = false;
  closed = true;
}

pub run_to_end : {J : Type 0} (j : J) → Reach (init 1 (j ∷ [])) (finished j)
unfolding init
run_to_end j =
    next
      (next
        (next
          (next
            (next (next (next here (take j [] refl refl refl refl)) (append j refl refl refl))
              (start j [] [] [] 0 refl refl refl refl))
            (exhaust refl refl refl))
          (deliver j [] [] refl refl refl))
        (done 0 refl refl))
      (close refl refl refl)

abbrev is_seven : ℕ → Bool
is_seven n = n == 7

closed_complete_example : count is_seven (7 ∷ []) + count is_seven [] ≡ count is_seven (7 ∷ [])
closed_complete_example = closed_complete is_seven 1 (7 ∷ []) (run_to_end 7) refl refl

-- A file system whose folders are numbered: the disk is the number of folders.
abbrev numbered : Fs
numbered = record {
  Disk = ℕ;
  mkdir_temp = λ base n. (some (n ∷ []), suc n);
  walk = λ src n. [];
  mkdir = λ dst n. (made, n);
  open_source = λ src n. true;
  open_target = λ dst n. (true, n);
  io_copy = λ src dst n. (true, n);
  remove_tree = λ dst n. (true, n);
}

abbrev Numbered : Text → ℕ → Type 0
Numbered [] n = ⊥
Numbered (c ∷ s) n = c < n

Numbered-suc : (p : Text) (n : ℕ) → Numbered p n → Numbered p (suc n)
Numbered-suc [] n h = h
Numbered-suc (c ∷ s) n h = omega arith

Numbered-new :
    (dst : Text) (n : ℕ) → ◌≡◌ {A = Option Text} (some (n ∷ [])) (some dst) → ¬ Numbered dst n
Numbered-new [] n e h = h
Numbered-new (c ∷ s) n e h = ground arith

Numbered-exists :
    (dst : Text) (n : ℕ) → ◌≡◌ {A = Option Text} (some (n ∷ [])) (some dst) → Numbered dst (suc n)
Numbered-exists [] n e = cc
Numbered-exists (c ∷ s) n e = ground arith

numbered_laws : FsLaws numbered
numbered_laws = record {
  exists = Numbered;
  mkdir_temp_new = λ base dst d h. Numbered-new dst d h;
  mkdir_temp_exists = λ base dst d h. Numbered-exists dst d h;
  mkdir_temp_keeps = λ base p d h. Numbered-suc p d h;
  mkdir_keeps = λ dst p d h. h;
  open_keeps = λ dst p d h. h;
  copy_keeps = λ src dst p d h. h;
}

abbrev fresh : CachedDealer
fresh = record { cache = []; work_dir = codes "/tmp"; src_dir = codes "/m" }

fresh-Inv : DealerInv numbered numbered_laws fresh 0
unfolding from_cache lookup
fresh-Inv = record { folders_exist = λ idf dst h. cc; one_owner = λ i j dst h k. cc }

-- A pool of one worker with a name, once its main loop has ended.
abbrev pub one_done : {J : Type 0} → Text → J → Workers.System J
one_done name j = record {
  stream = [];
  feeder = ended;
  queue = [];
  queue_closed = false;
  workers = (new_worker 0 name, receiving) ∷ [];
  results = j ∷ [];
  failed = [];
  discarded = [];
  wg = 0;
  cancelled = false;
  closed = true;
}

pub worker_to_end :
    {J : Type 0} (name : Text) (j : J)
    → Workers.Reach (Workers.init name 1 (j ∷ [])) (one_done name j)
unfolding Workers.init start_workers workers_from
worker_to_end name j =
    Workers.next
      (Workers.next
        (Workers.next
          (Workers.next
            (Workers.next
              (Workers.next (Workers.next Workers.here (Workers.take j [] refl refl refl refl))
                (Workers.append j refl refl refl))
              (Workers.receive j [] (new_worker 0 name) [] [] refl refl refl))
            (Workers.exhaust refl refl refl))
          (Workers.deliver j (new_worker 0 name) [] [] refl refl refl))
        (Workers.done (new_worker 0 name) [] [] refl refl))
      (Workers.close refl refl refl)

Reach-forget_example : Reach {J = ℕ} (init 1 (7 ∷ [])) (forget (one_done (codes "w") 7))
Reach-forget_example =
    Reach-forget (codes "w") 1 (7 ∷ []) (omega arith) (worker_to_end (codes "w") 7)

-- One worker, one mutant, and no signal.
pool_ends_example :
    (Ending.steps (worker_to_end {J = ℕ} (codes "w") 7) ≤ 5 * length {A = ℕ} (7 ∷ []) + 2 * 1 + 4)
    × ((true ≡ true) ⊎ WorkersCan.CanStep (one_done {J = ℕ} (codes "w") 7))
pool_ends_example =
    Ending.pool_ends {J = ℕ} (codes "w") 1 (7 ∷ []) (omega arith) (worker_to_end (codes "w") 7)

abbrev plain : ℤ → Text
plain (pos n) = n ∷ []
plain (negsuc n) = b'-' ∷ n ∷ []

abbrev plain_format : Format
plain_format = record { decimal = plain; duration = plain }

abbrev idf : ℕ → Text
idf i = worker_name plain_format (new_worker i (codes "w"))

abbrev two_at_work :
    (t : Shared.System numbered numbered_laws) × Shared.Reach numbered numbered_laws idf
      (Shared.init numbered numbered_laws (new_cached_dealer (codes "/tmp") (codes "/m")) 0)
      t
unfolding from_cache set_cache lookup insert worker_name new_worker new_cached_dealer text_eq
two_at_work = (
  _,
  Shared.next
      (Shared.next
        (Shared.next
          (Shared.next
            (Shared.next (Shared.next Shared.here (Shared.pick 0 (Shared.miss refl)))
              (Shared.pick 0 (Shared.make refl)))
            (Shared.pick 0 Shared.keep))
          (Shared.pick 1 (Shared.miss refl)))
        (Shared.pick 1 (Shared.make refl)))
      (Shared.pick 1 Shared.keep),
)

two_workers : Workers.Reach (Workers.init {J = ℕ} (codes "w") 2 []) (Workers.init (codes "w") 2 [])
two_workers = Workers.here

folders_apart_example : ◌≢◌ {A = Text} (0 ∷ []) (1 ∷ [])
unfolding Workers.init start_workers workers_from from_cache set_cache lookup insert worker_name
    new_worker new_cached_dealer text_eq
folders_apart_example =
    folders_apart numbered numbered_laws plain_format (codes "w") 2 [] (codes "/tmp") (codes "/m") 0
      (λ n m e. ground arith) two_workers two_at_work.1 [] [] [] (new_worker 0 (codes "w"))
      (new_worker 1 (codes "w")) receiving receiving (0 ∷ []) (1 ∷ []) refl refl refl

abbrev pending : Workers.System ℕ
pending = record (Workers.init {J = ℕ} (codes "w") 0 (7 ∷ [])) {
  stream = [];
  feeder = holding 7;
  wg = 2;
}

took_seven :
    Workers.Reach (Workers.init (codes "w") (workers (size 4 (negsuc 0) false)) (7 ∷ [])) pending
unfolding Workers.init start_workers workers_from workers size
took_seven = Workers.next Workers.here (Workers.take 7 [] refl refl refl refl)

negative_workers_hang_example : (pending.closed ≡ false) × (pending.results ≡ [])
unfolding Workers.init
negative_workers_hang_example = negative_workers_hang (codes "w") 4 0 false 7 [] took_seven refl

-- A signal comes once the first of two mutants is taken; it is tested, and the second is given up.
abbrev cancelled_early :
    (s : Workers.System ℕ) × Workers.Reach (Workers.init {J = ℕ} (codes "w") 1 (7 ∷ 8 ∷ [])) s
    × (s.cancelled ≡ true)
unfolding Workers.init start_workers workers_from
cancelled_early = (
  _,
  Workers.next (Workers.next Workers.here (Workers.take 7 (8 ∷ []) refl refl refl refl))
      (Workers.cancel refl refl),
  refl,
)

abbrev stopped_late : (t : Workers.System ℕ) × Workers.Reach cancelled_early.0 t
unfolding Workers.init start_workers workers_from
stopped_late = (
  _,
  Workers.next
      (Workers.next
        (Workers.next (Workers.next Workers.here (Workers.append 7 refl refl refl))
          (Workers.abort 8 [] refl refl refl refl))
        (Workers.receive 7 [] (new_worker 0 (codes "w")) [] [] refl refl refl))
      (Workers.deliver 7 (new_worker 0 (codes "w")) [] [] refl refl refl),
)

few_after_cancel_example :
    length stopped_late.0.results + length stopped_late.0.failed
    ≤ length cancelled_early.0.results + length cancelled_early.0.failed + 1 + 2
few_after_cancel_example =
    few_after_cancel (codes "w") 1 (7 ∷ 8 ∷ []) (omega arith) cancelled_early.1 cancelled_early.2
      stopped_late.1
