-- ===== src/Engine/Workers/Cancelled.antt =====
-- How much work is still done after a cancellation.
use gremlins.Prelude.{
  ℕ, ◌+◌, ◌≤◌, ◌<◌, ◌≡◌, ap, true, List, [], ◌∷◌, ◌++◌, Text, length, length-append, arith,
}
use gremlins.Engine.Pool.Invariant as Counted
use gremlins.Engine.Workers.{
  Worker, At, receiving, finishing, telling, gone, testing, System, init, Step, take, append,
  exhaust, abort, shut, receive, deliver, fail, done, find_closed, tell, stopped, close, cancel,
  Reach, here, next,
}
use gremlins.Engine.Workers.Invariant.{sum, sum-at, holds_one, length-Reach}
use gremlins.Engine.Workers.Refinement.{Reach-forget}

abbrev at_test : {J : Type 0} → At J → ℕ
at_test (testing j) = 1
at_test _ = 0

-- The mutants that the feeder has taken from the stream: those sent or given up, and those that are
-- held, queued or tested.
abbrev over : {J : Type 0} → System J → ℕ
over s = length s.results + length s.failed

abbrev taken : {J : Type 0} → System J → ℕ
taken s = over s + holds_one s.feeder + length s.queue + sum at_test s.workers

moves :
    {J : Type 0} (w : Worker) (x y : At J) (b a ws : List (Worker × At J))
    → ws ≡ b ++ (w, x) ∷ a
    → sum at_test (b ++ (w, y) ∷ a) + at_test x ≡ sum at_test ws + at_test y
moves w x y b a ws h =
    omega (arith, ap (sum at_test) h, sum-at at_test w x b a, sum-at at_test w y b a)

taken-Step :
    {J : Type 0} {s t : System J}
    → Step s t
    → s.cancelled ≡ true
    → (t.cancelled ≡ true) × (taken t ≤ taken s)
taken-Step (take j js f st c e) k = absurd (ground arith)
taken-Step (append j f q e) k = rw e (ground arith)
taken-Step (exhaust f st e) k = rw e (ground arith)
taken-Step (abort j js f st c e) k = rw e (ground arith)
taken-Step (shut f q e) k = rw e (ground arith)
taken-Step {s} (receive j js w b a q h e) k =
    rw e (ground (arith, moves w receiving (testing j) b a s.workers h))
taken-Step {s} (deliver j w b a h c e) k = rw e (
    ground (arith, moves w (testing j) finishing b a s.workers h, length-append s.results (j ∷ [])))
taken-Step {s} (fail j w b a h e) k =
    rw e (ground (arith, moves w (testing j) finishing b a s.workers h))
taken-Step {s} (done w b a h e) k =
    rw e (ground (arith, moves w finishing receiving b a s.workers h))
taken-Step {s} (find_closed w b a q c h e) k =
    rw e (ground (arith, moves w receiving telling b a s.workers h))
taken-Step {s} (tell w b a c h e) k = rw e (ground (arith, moves w telling gone b a s.workers h))
taken-Step (stopped f c g e) k = rw e (ground arith)
taken-Step (close w c e) k = rw e (ground arith)
taken-Step (cancel c e) k = absurd (ground arith)

taken-Reach :
    {J : Type 0} {s t : System J}
    → Reach s t
    → s.cancelled ≡ true
    → (t.cancelled ≡ true) × (taken t ≤ taken s)
taken-Reach here k = (k, omega arith)
taken-Reach (next r st) k =
    let (c, less) = taken-Reach r k in
    let (c', less') = taken-Step st c in (c', omega (arith, less, less'))

tests_bounded : {J : Type 0} (ws : List (Worker × At J)) → sum at_test ws ≤ length ws
tests_bounded [] = omega arith
tests_bounded ((w, receiving) ∷ ws) = omega (arith, tests_bounded ws)
tests_bounded ((w, finishing) ∷ ws) = omega (arith, tests_bounded ws)
tests_bounded ((w, telling) ∷ ws) = omega (arith, tests_bounded ws)
tests_bounded ((w, gone) ∷ ws) = omega (arith, tests_bounded ws)
tests_bounded ((w, testing j) ∷ ws) = omega (arith, tests_bounded ws)

-- Once the context is cancelled, whatever the goroutines of a pool of at least one worker then do, no
-- more mutants than there are workers and two more are still sent or fail to be applied.
pub few_after_cancel :
    {J : Type 0} (name : Text) (n : ℕ) (stream : List J) {s t : System J}
    → 0 < n
    → Reach (init name n stream) s
    → s.cancelled ≡ true
    → Reach s t
    → length t.results + length t.failed ≤ length s.results + length s.failed + n + 2
few_after_cancel name n stream {s} {t} h r k r' =
    let pool = Counted.Reach-Inv n stream (Reach-forget name n stream h r) in
    ground (
      arith,
      (taken-Reach r' k).1,
      tests_bounded s.workers,
      length-Reach name n stream r,
      pool.queue_bound,
    )
