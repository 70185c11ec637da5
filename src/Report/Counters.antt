-- ===== src/Report/Counters.antt =====
-- The statistics of a report against the list of mutants.
use mathlib.Core.List.{append-nil}
use gremlins.Prelude.{
  append-if, ℕ, suc, ◌+◌, ◌≡◌, ap, ◌∙◌, Bool, true, false, List, [], ◌∷◌, ◌++◌, Text, text_eq,
  if◌then◌else◌, arith, length,
}
use gremlins.Prelude.GoMap.{lookup, append_at, values_at, values_at-append_at}
use gremlins.Mutator.{
  Mutant, Status, lived, killed, not_covered, skipped, timed_out, not_viable, runnable,
}
use gremlins.Report.{Mutation, Statistics, Tally, tally_mutant, tally, empty_tally, mutation_of}

-- The counter of a status.
abbrev pub counter : Status → Tally → ℕ
counter killed r = r.killed_count
counter lived r = r.lived_count
counter timed_out r = r.timed_out_count
counter not_covered r = r.not_covered_count
counter skipped r = r.skipped_count
counter not_viable r = r.not_viable_count
counter runnable r = r.runnable_count

abbrev pub same_status : Status → Status → Bool
same_status killed killed = true
same_status lived lived = true
same_status timed_out timed_out = true
same_status not_covered not_covered = true
same_status skipped skipped = true
same_status not_viable not_viable = true
same_status runnable runnable = true
same_status _ _ = false

-- How many mutants of the list have the status.
abbrev pub having : Status → List Mutant → ℕ
having s [] = 0
having s (m ∷ ms) = (if same_status s m.status then 1 else 0) + having s ms

counter-tally_mutant :
    (s : Status) (m : Mutant) (r : Tally)
    → counter s (tally_mutant m r) ≡ counter s r + (if same_status s m.status then 1 else 0)
unfolding tally_mutant
counter-tally_mutant s m r = ground arith

counter-tally_from :
    (s : Status) (r : Tally) (ms : List Mutant) → counter s (tally r ms) ≡ counter s r + having s ms
unfolding tally
counter-tally_from s r [] = omega arith
counter-tally_from s r (m ∷ ms) =
    omega (arith, counter-tally_from s (tally_mutant m r) ms, counter-tally_mutant s m r)

-- Each counter of the report is the number of mutants with that status.
pub counter-tally : (s : Status) (ms : List Mutant) → counter s (tally empty_tally ms) ≡ having s ms
counter-tally s ms = ground (arith, counter-tally_from s empty_tally ms)

-- The sum of the counters.
abbrev pub counted : Tally → ℕ
counted r =
    r.killed_count + r.lived_count + r.timed_out_count + r.not_covered_count + r.skipped_count
    + r.not_viable_count + r.runnable_count

abbrev pub typed : Statistics → ℕ
typed s =
    s.arithmetic_bases + s.conditionals_negations + s.conditionals_boundaries
    + s.increment_decrements + s.invert_assignments_ + s.invert_bitwises
    + s.invert_bitwise_assignments_ + s.invert_logicals + s.invert_loop_ctrls + s.invert_negatives_
    + s.remove_self_assignments_

counted-tally_mutant :
    (m : Mutant) (r : Tally)
    → (counted (tally_mutant m r) ≡ suc (counted r))
      × (typed (tally_mutant m r).statistics ≡ suc (typed r.statistics))
unfolding tally_mutant
counted-tally_mutant m r = ground arith

counted-tally_from :
    (r : Tally) (ms : List Mutant)
    → (counted (tally r ms) ≡ counted r + length ms)
      × (typed (tally r ms).statistics ≡ typed r.statistics + length ms)
unfolding tally
counted-tally_from r [] = omega arith
counted-tally_from r (m ∷ ms) =
    omega (arith, counted-tally_from (tally_mutant m r) ms, counted-tally_mutant m r)

-- No mutant is lost or counted twice: the counters by status sum to the number of mutants, and so
-- do the counters by type.
counted-tally :
    (ms : List Mutant)
    → (counted (tally empty_tally ms) ≡ length ms)
      × (typed (tally empty_tally ms).statistics ≡ length ms)
counted-tally ms = omega (arith, counted-tally_from empty_tally ms)

-- The mutations of the mutants in a file, in the order of the list.
abbrev pub mutations_in : Text → List Mutant → List Mutation
mutations_in k [] = []
mutations_in k (m ∷ ms) =
    if text_eq m.position.filename k then mutation_of m ∷ mutations_in k ms else mutations_in k ms

files-tally_mutant :
    (m : Mutant) (r : Tally)
    → (tally_mutant m r).files ≡ append_at m.position.filename (mutation_of m) r.files
unfolding tally_mutant
files-tally_mutant m r = ground arith

values_at-tally_mutant :
    (k : Text) (m : Mutant) (r : Tally)
    → values_at k (tally_mutant m r).files
      ≡ values_at k r.files ++ (if text_eq m.position.filename k then mutation_of m ∷ [] else [])
unfolding tally_mutant
values_at-tally_mutant k m r =
    ap (values_at k) (files-tally_mutant m r)
    ∙ values_at-append_at m.position.filename k (mutation_of m) r.files

values_at-tally_from :
    (k : Text) (r : Tally) (ms : List Mutant)
    → values_at k (tally r ms).files ≡ values_at k r.files ++ mutations_in k ms
unfolding tally
values_at-tally_from k r [] = rw append-nil
values_at-tally_from k r (m ∷ ms) =
    values_at-tally_from k (tally_mutant m r) ms
    ∙ rw (values_at-tally_mutant k m r) (
        append-if (text_eq m.position.filename k) (values_at k r.files) (mutation_of m)
          (mutations_in k ms))

-- The report lists, under each file name, the mutations of the mutants in that file, in order.
pub values_at-tally :
    (k : Text) (ms : List Mutant) → values_at k (tally empty_tally ms).files ≡ mutations_in k ms
unfolding lookup
values_at-tally k ms = values_at-tally_from k empty_tally ms
