-- ===== src/Engine/Totals.antt =====
-- From the stream of mutants to the statistics of the report: the pool of internal/engine/engine.go
-- and the executors of internal/engine/executor.go with internal/report/report.go.
use gremlins.Prelude.{ℕ, ◌+◌, ◌≡◌, Bool, true, false, not, List, [], ◌∷◌, arith}
use gremlins.Mutator.{Mutant, Status, not_covered, skipped, lived, killed, not_viable, timed_out}
use gremlins.Report.{tally, empty_tally}
use gremlins.Report.Counters.{counter-tally, same_status, having}
use gremlins.Engine.TokenMutator.{TokenMutator}
use gremlins.Engine.Executor.{is_untested}
use gremlins.Engine.Executor.Sent.{Delivered}
use gremlins.Engine.Pool.{Reach, init, Pool}
use gremlins.Engine.Pool.Invariant.{count, closed_complete}

-- Mutants delivered one for one.
abbrev pub AllDelivered : Bool → List TokenMutator → List Mutant → Type 0
AllDelivered dry [] [] = Unit {0}
AllDelivered dry (m ∷ ms) (v ∷ vs) = Delivered dry m v × AllDelivered dry ms vs
AllDelivered dry _ _ = ⊥

-- A mutant found with a status; one that is to be tested.
abbrev pub is_found : Status → TokenMutator → Bool
is_found st m = same_status st m.status

abbrev pub is_to_test : TokenMutator → Bool
is_to_test m = not (is_untested m.status)

having_not_covered :
    (ms : List TokenMutator) (vs : List Mutant)
    → AllDelivered false ms vs
    → having not_covered vs ≡ count (is_found not_covered) ms
having_not_covered [] [] h = omega arith
having_not_covered [] (v ∷ vs) h = absurd h
having_not_covered (m ∷ ms) [] h = absurd h
having_not_covered (m ∷ ms) (v ∷ vs) h = ground (arith, having_not_covered ms vs h.1)

having_skipped :
    (ms : List TokenMutator) (vs : List Mutant)
    → AllDelivered false ms vs
    → having skipped vs ≡ count (is_found skipped) ms
having_skipped [] [] h = omega arith
having_skipped [] (v ∷ vs) h = absurd h
having_skipped (m ∷ ms) [] h = absurd h
having_skipped (m ∷ ms) (v ∷ vs) h = ground (arith, having_skipped ms vs h.1)

having_tested :
    (ms : List TokenMutator) (vs : List Mutant)
    → AllDelivered false ms vs
    → having killed vs + having lived vs + having timed_out vs + having not_viable vs
      ≡ count is_to_test ms
having_tested [] [] h = omega arith
having_tested [] (v ∷ vs) h = absurd h
having_tested (m ∷ ms) [] h = absurd h
having_tested (m ∷ ms) (v ∷ vs) h = ground (arith, having_tested ms vs h.1)

-- A full run that ends without a cancellation, after any interleaving of its goroutines: but for the
-- mutants that could not be applied, the report counts as not covered and as skipped the mutants of
-- the stream that are, and as killed, lived, timed out or not viable all the others.
pub totals :
    (n : ℕ) (stream : List TokenMutator) {s : Pool TokenMutator} (vs : List Mutant)
    → Reach (init n stream) s
    → s.closed ≡ true
    → s.cancelled ≡ false
    → AllDelivered false s.results vs
    → let t = tally empty_tally vs in
      (t.not_covered_count + count (is_found not_covered) s.failed
        ≡ count (is_found not_covered) stream)
      × (t.skipped_count + count (is_found skipped) s.failed ≡ count (is_found skipped) stream)
      × (t.killed_count
            + t.lived_count
            + t.timed_out_count
            + t.not_viable_count
            + count is_to_test s.failed
          ≡ count is_to_test stream)
totals n stream {s} vs r closed kept d = omega (
  arith,
  counter-tally not_covered vs,
  counter-tally skipped vs,
  counter-tally killed vs,
  counter-tally lived vs,
  counter-tally timed_out vs,
  counter-tally not_viable vs,
  having_not_covered s.results vs d,
  having_skipped s.results vs d,
  having_tested s.results vs d,
  closed_complete (is_found not_covered) n stream r closed kept,
  closed_complete (is_found skipped) n stream r closed kept,
  closed_complete is_to_test n stream r closed kept,
)
