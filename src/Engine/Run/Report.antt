-- ===== src/Engine/Run/Report.antt =====
-- The statistics of a run against a plain search of the source.
use mathlib.Core.Path.{subst}
use gremlins.Prelude.{
  ℕ, pos, ◌+◌, ◌<◌, ◌≡◌, refl, ap, ◌∙◌, Bool, true, false, ◌||◌, List, [], ◌∷◌, length, codes,
  arith,
}
use gremlins.Mutator.{Mutant, Status, not_covered, skipped, runnable}
use gremlins.Report.{Results, tally, empty_tally}
use gremlins.Report.Counters.{counter-tally, having}
use gremlins.Engine.TokenMutator.{TokenMutator}
use gremlins.Engine.Totals.{AllDelivered, is_found, is_to_test, totals}
use gremlins.Engine.Pool.{size, workers, Pool, Reach, init}
use gremlins.Engine.Pool.Size.{workers-size}
use gremlins.Engine.Pool.Invariant.{count, closed_complete}
use gremlins.Engine.Walk.Reference.{search, count-walk}
use gremlins.Engine.Workers.{new_worker}
use gremlins.Engine.Workers.Folders.{worker_name}
use gremlins.Engine.Workers.Refinement.{Reach-forget}
use gremlins.Engine.Executor.{is_untested}
use gremlins.Engine.Executor.Sent.{start-Delivered, start_dropped}
use gremlins.Engine.Run.{Testing, Engine, Setup, stream, AllSent, AllDropped, Runs, run}

-- Mutants delivered by a dry run keep their statuses.
having_dry :
    (st : Status) (ms : List TokenMutator) (vs : List Mutant)
    → AllDelivered true ms vs
    → having st vs ≡ count (is_found st) ms
having_dry st [] [] h = refl
having_dry st [] (v ∷ vs) h = absurd h
having_dry st (m ∷ ms) [] h = absurd h
having_dry st (m ∷ ms) (v ∷ vs) h = ground (arith, having_dry st ms vs h.1)

-- What is sent is delivered, and what is dropped was to be tested.
all_delivered :
    (x : Testing) (n : ℕ) (ms : List TokenMutator) (vs : List Mutant)
    → AllSent x n ms vs
    → AllDelivered x.settings.dry_run ms vs
all_delivered x n [] [] h = tt
all_delivered x n [] (v ∷ vs) h = absurd h
all_delivered x n (m ∷ ms) [] h = absurd h
all_delivered x n (m ∷ ms) (v ∷ vs) ((i, below, st, e), h) = (
  start-Delivered x.os x.dealer x.format x.exec x.settings
      (worker_name x.format (new_worker i (codes "mutator"))) m st v e,
  all_delivered x n ms vs h,
)

abbrev AllTested : Bool → List TokenMutator → Type 0
AllTested dry [] = Unit {0}
AllTested dry (m ∷ ms) = ((is_untested m.status || dry) ≡ false) × AllTested dry ms

all_tested :
    (x : Testing) (n : ℕ) (ms : List TokenMutator)
    → AllDropped x n ms
    → AllTested x.settings.dry_run ms
all_tested x n [] h = tt
all_tested x n (m ∷ ms) ((i, below, st, e), h) = (
  start_dropped x.os x.dealer x.format x.exec x.settings
      (worker_name x.format (new_worker i (codes "mutator"))) m st e,
  all_tested x n ms h,
)

dropped_none : (ms : List TokenMutator) → AllTested true ms → ms ≡ []
dropped_none [] h = refl
dropped_none (m ∷ ms) h = absurd (ground arith)

dropped_tested :
    (ms : List TokenMutator)
    → AllTested false ms
    → (count (is_found not_covered) ms ≡ 0)
      × (count (is_found skipped) ms ≡ 0)
      × (count is_to_test ms ≡ length ms)
dropped_tested [] h = (refl, refl, refl)
dropped_tested (m ∷ ms) h = ground (arith, dropped_tested ms h.1)

-- The mutants of an engine that pass a test, by the plain search.
abbrev pub searched : Setup → Engine → (TokenMutator → Bool) → ℕ
searched u e p = search p e.module_ e.code_data u.enabled e.fs.parse e.fs.ast e.fs.paths

count-stream :
    (u : Setup) (e : Engine) (p : TokenMutator → Bool) → count p (stream u e) ≡ searched u e p
unfolding stream
count-stream u e p = count-walk p e.module_ e.code_data u.enabled e.fs.parse e.fs.ast e.fs.paths

-- The pool of a run has a worker.
some_worker :
    (u : Setup) (n : ℕ)
    → 0 < u.cpus
    → u.workers_key ≡ pos n
    → 0 < workers (size u.cpus u.workers_key u.integration_mode)
some_worker u n cpus key = rw key ((workers-size u.cpus n u.integration_mode cpus).0)

-- A full run that is not cancelled, with a CPU and a number of workers that is not negative: whatever
-- the order in which its goroutines act, the report counts as not covered and as skipped exactly the
-- mutants that the plain search finds to be, and as killed, lived, timed out or not viable all the
-- others but for those that could not be applied.
pub full_run_counts :
    (x : Testing) (u : Setup) (e : Engine) (results : Results) (dropped : List TokenMutator) (n : ℕ)
    → 0 < u.cpus
    → u.workers_key ≡ pos n
    → x.settings.dry_run ≡ false
    → Runs x u e results dropped
    → let t = tally empty_tally results.mutants in
      (t.not_covered_count ≡ searched u e (is_found not_covered))
      × (t.skipped_count ≡ searched u e (is_found skipped))
      × (t.killed_count + t.lived_count + t.timed_out_count + t.not_viable_count + length dropped
          ≡ searched u e is_to_test)
full_run_counts x u e results dropped n cpus key full (run s vs elapsed same mode r c k f d a q) =
    let forgets =
      Reach-forget (codes "mutator") (workers (size u.cpus u.workers_key u.integration_mode))
        (stream u e) (some_worker u n cpus key) r in
    let (uncovered, skips, others) =
      totals (workers (size u.cpus u.workers_key u.integration_mode)) (stream u e) vs forgets c k (
        subst (λ (b : Bool). AllDelivered b s.results vs) full
          (all_delivered x (workers (size u.cpus u.workers_key u.integration_mode)) s.results vs
            d)) in
    let (no_uncovered, no_skips, all) = dropped_tested dropped (
      subst (λ (b : Bool). AllTested b dropped) full
        (all_tested x (workers (size u.cpus u.workers_key u.integration_mode)) dropped a)) in
    rw q (
      (
        omega (
          arith,
          uncovered,
          no_uncovered,
          ap (count (is_found not_covered)) f,
          count-stream u e (is_found not_covered),
        ),
        omega (
          arith,
          skips,
          no_skips,
          ap (count (is_found skipped)) f,
          count-stream u e (is_found skipped),
        ),
        omega (arith, others, all, ap (count is_to_test) f, count-stream u e is_to_test),
      ))

found_all :
    (u : Setup) (e : Engine) (p : TokenMutator → Bool) (n : ℕ) {s : Pool TokenMutator}
    → Reach (init n (stream u e)) s
    → s.closed ≡ true
    → s.cancelled ≡ false
    → s.failed ≡ []
    → count p s.results ≡ searched u e p
found_all u e p n r c k f =
    omega (arith, closed_complete p n (stream u e) r c k, ap (count p) f, count-stream u e p)

length-delivered :
    (dry : Bool) (ms : List TokenMutator) (vs : List Mutant)
    → AllDelivered dry ms vs
    → length vs ≡ count (λ (m : TokenMutator). true) ms
length-delivered dry [] [] h = refl
length-delivered dry [] (v ∷ vs) h = absurd h
length-delivered dry (m ∷ ms) [] h = absurd h
length-delivered dry (m ∷ ms) (v ∷ vs) h = omega (arith, length-delivered dry ms vs h.1)

-- A dry run that is not cancelled, likewise: the report counts as runnable, as not covered and as
-- skipped exactly the mutants that the plain search finds to be, and no mutant is missing from it.
pub dry_run_counts :
    (x : Testing) (u : Setup) (e : Engine) (results : Results) (dropped : List TokenMutator) (n : ℕ)
    → 0 < u.cpus
    → u.workers_key ≡ pos n
    → x.settings.dry_run ≡ true
    → Runs x u e results dropped
    → let t = tally empty_tally results.mutants in
      (t.runnable_count ≡ searched u e (is_found runnable))
      × (t.not_covered_count ≡ searched u e (is_found not_covered))
      × (t.skipped_count ≡ searched u e (is_found skipped))
      × (length results.mutants ≡ searched u e (λ m. true))
dry_run_counts x u e results dropped n cpus key dry (run s vs elapsed same mode r c k f d a q) =
    let forgets =
      Reach-forget (codes "mutator") (workers (size u.cpus u.workers_key u.integration_mode))
        (stream u e) (some_worker u n cpus key) r in
    let kept =
      subst (λ (b : Bool). AllDelivered b s.results vs) dry
        (all_delivered x (workers (size u.cpus u.workers_key u.integration_mode)) s.results vs d) in
    let none_dropped =
      f
      ∙ dropped_none dropped (
          subst (λ (b : Bool). AllTested b dropped) dry
            (all_tested x (workers (size u.cpus u.workers_key u.integration_mode)) dropped a)) in
    let found = λ (p : TokenMutator → Bool).
      found_all u e p (workers (size u.cpus u.workers_key u.integration_mode)) forgets c k
        none_dropped in
    rw q (
      (
        counter-tally runnable vs
            ∙ having_dry runnable s.results vs kept
            ∙ found (is_found runnable),
        counter-tally not_covered vs
            ∙ having_dry not_covered s.results vs kept
            ∙ found (is_found not_covered),
        counter-tally skipped vs ∙ having_dry skipped s.results vs kept ∙ found (is_found skipped),
        length-delivered true s.results vs kept ∙ found (λ m. true),
      ))
