-- ===== src/Engine/Pool/Invariant.antt =====
-- What holds of the pool after any interleaving: its counters, and where its mutants are.
use gremlins.Prelude.{
  ℕ, ◌+◌, ◌≤◌, ◌≡◌, refl, ap, ◌∙◌, Bool, true, false, List, [], ◌∷◌, ◌++◌, length, length-append,
  if◌then◌else◌, arith,
}
use gremlins.Engine.Pool.{
  Feeder, stopping, ended, holding, Pool, init, Step, take, append, exhaust, abort, stopped, start,
  deliver, fail, done, close, cancel, Reach, here, next,
}

-- How many items of a list pass a test.
abbrev pub count : {J : Type 0} → (J → Bool) → List J → ℕ
count p [] = 0
count p (x ∷ xs) = (if p x then 1 else 0) + count p xs

pub count-append :
    {J : Type 0} (p : J → Bool) (xs ys : List J) → count p (xs ++ ys) ≡ count p xs + count p ys
count-append p [] ys = omega arith
count-append p (x ∷ xs) ys = omega (arith, count-append p xs ys)

count-le-length : {J : Type 0} (p : J → Bool) (xs : List J) → count p xs ≤ length xs
count-le-length p [] = omega arith
count-le-length p (x ∷ xs) = ground (arith, count-le-length p xs)

abbrev pub held : {J : Type 0} → (J → Bool) → Feeder J → ℕ
held p (holding j) = if p j then 1 else 0
held p _ = 0

-- Everywhere that a mutant can be.
abbrev pub everywhere : {J : Type 0} → (J → Bool) → Pool J → ℕ
everywhere p s =
    count p s.stream
    + held p s.feeder
    + count p s.queue
    + count p s.running
    + count p s.results
    + count p s.failed
    + count p s.discarded

-- What the wait group counts of the feeder: itself until it ends, and the mutant that it holds.
abbrev pub feeder_wg : {J : Type 0} → Feeder J → ℕ
feeder_wg (holding j) = 2
feeder_wg ended = 0
feeder_wg _ = 1

pub record Inv {J : Type 0} (n : ℕ) (s : Pool J) : Type 0 where
  pub wg_exact : s.wg ≡ feeder_wg s.feeder + length s.queue + length s.running + s.finishing
  pub workers_exact : s.idle + length s.running + s.finishing ≡ n
  pub queue_bound : length s.queue ≤ 1
  pub closed_done : s.closed ≡ true → s.wg ≡ 0
  pub discards : s.cancelled ≡ false → s.discarded ≡ []
  pub ends : s.feeder ≡ ended → s.cancelled ≡ false → s.stream ≡ []
  pub stops : s.feeder ≡ stopping → s.cancelled ≡ true

Step-Inv : {J : Type 0} (n : ℕ) {s t : Pool J} → Step s t → Inv n s → Inv n t
Step-Inv n (take j js f st c e) v = rw e (ground arith)
Step-Inv n (append j f q e) v = rw e (ground arith)
Step-Inv n (exhaust f st e) v = rw e (ground arith)
Step-Inv n (abort j js f st c e) v = rw e (ground arith)
Step-Inv n (stopped f q r fin e) v = rw e (ground arith)
Step-Inv n (start j js before after k q r i e) v =
    rw e (ground (arith, ap length r, length-append before after, length-append before (j ∷ after)))
Step-Inv n {s} (deliver j before after r c e) v =
    rw e (ground (arith, ap length r, length-append before after, length-append before (j ∷ after)))
Step-Inv n {s} (fail j before after r e) v =
    rw e (ground (arith, ap length r, length-append before after, length-append before (j ∷ after)))
Step-Inv n (done k f e) v = rw e (ground arith)
Step-Inv n (close w c e) v = rw e (ground arith)
Step-Inv n (cancel c e) v = rw e (ground arith)

init-Inv : {J : Type 0} (n : ℕ) (stream : List J) → Inv n (init n stream)
unfolding init
init-Inv n stream = ground arith

-- The invariant holds after any interleaving: the wait group counts exactly what is still to be
-- done, every worker is accounted for, and the output channel is closed only when nothing is left.
pub Reach-Inv :
    {J : Type 0} (n : ℕ) (stream : List J) {s : Pool J} → Reach (init n stream) s → Inv n s
Reach-Inv n stream here = init-Inv n stream
Reach-Inv n stream (next r st) = Step-Inv n st (Reach-Inv n stream r)

everywhere-Step :
    {J : Type 0} (p : J → Bool) {s t : Pool J} → Step s t → everywhere p t ≡ everywhere p s
everywhere-Step p (take j js f st c e) = rw e (ground arith)
everywhere-Step p (append j f q e) = rw e (ground arith)
everywhere-Step p (exhaust f st e) = rw e (ground arith)
everywhere-Step p (abort j js f st c e) = rw e (ground arith)
everywhere-Step p (stopped f q r fin e) = rw e (ground arith)
everywhere-Step p (start j js before after k q r i e) =
    rw e (
      ground
        (arith, ap (count p) r, count-append p before after, count-append p before (j ∷ after)))
everywhere-Step p {s} (deliver j before after r c e) = rw e (
    ground (
      arith,
      ap (count p) r,
      count-append p before after,
      count-append p before (j ∷ after),
      count-append p s.results (j ∷ []),
    ))
everywhere-Step p (fail j before after r e) =
    rw e (
      ground
        (arith, ap (count p) r, count-append p before after, count-append p before (j ∷ after)))
everywhere-Step p (done k f e) = rw e refl
everywhere-Step p (close w c e) = rw e refl
everywhere-Step p (cancel c e) = rw e refl

-- Wherever the mutants are after any interleaving, they are those of the stream, each as often.
pub everywhere-Reach :
    {J : Type 0} (p : J → Bool) (n : ℕ) (stream : List J) {s : Pool J}
    → Reach (init n stream) s
    → everywhere p s ≡ count p stream
unfolding init
everywhere-Reach p n stream here = omega arith
everywhere-Reach p n stream (next r st) = everywhere-Step p st ∙ everywhere-Reach p n stream r

-- When the main loop ends without a cancellation, the results are the mutants of the stream, each
-- as often, but for those that could not be applied.
pub closed_complete :
    {J : Type 0} (p : J → Bool) (n : ℕ) (stream : List J) {s : Pool J}
    → Reach (init n stream) s
    → s.closed ≡ true
    → s.cancelled ≡ false
    → count p s.results + count p s.failed ≡ count p stream
closed_complete p n stream {s} r c x = ground (
  arith,
  Reach-Inv n stream r,
  everywhere-Reach p n stream r,
  count-le-length p s.queue,
  count-le-length p s.running,
)
