-- ===== src/Engine/Workers/Ending.antt =====
-- How long a history of the workers with names can be, and that every one can be brought to its end.
use gremlins.Prelude.{
  ℕ, zero, suc, length, ◌+◌, ◌*◌, ◌≤◌, ◌<◌, ◌≡◌, refl, ap, ◌∙◌, true, List, [], ◌∷◌, ◌++◌, Text,
  if◌then◌else◌, arith, ◌⊎◌, inl, inr,
}
use gremlins.Engine.Pool.{Feeder, waiting, stopping, ended, holding}
use gremlins.Engine.Workers.{
  Worker, At, receiving, finishing, telling, gone, testing, System, workers_from, start_workers,
  init, Step, take, append, exhaust, abort, shut, receive, deliver, fail, done, find_closed, tell,
  stopped, close, cancel, Reach, here, next,
}
use gremlins.Engine.Workers.Invariant.{sum, sum-at, length-workers_from}
use gremlins.Engine.Workers.Progress.{CanStep, Reach_CanStep}

-- The steps that the feeder and a worker have left at most, those of the stream apart.
abbrev feeder_left : {J : Type 0} → Feeder J → ℕ
feeder_left (holding j) = 5
feeder_left waiting = 1
feeder_left stopping = 1
feeder_left ended = 0

abbrev worker_left : {J : Type 0} → At J → ℕ
worker_left (testing j) = 4
worker_left finishing = 3
worker_left receiving = 2
worker_left telling = 1
worker_left gone = 0

abbrev pub left : {J : Type 0} → System J → ℕ
left s =
    5 * length s.stream
    + feeder_left s.feeder
    + 3 * length s.queue
    + sum worker_left s.workers
    + (if s.queue_closed then 0 else 1)
    + (if s.closed then 0 else 1)
    + (if s.cancelled then 0 else 1)

-- A worker that moves to a place with fewer steps left.
moves :
    {J : Type 0} (w : Worker) (x y : At J) (b a ws : List (Worker × At J))
    → ws ≡ b ++ (w, x) ∷ a
    → sum worker_left (b ++ (w, y) ∷ a) + worker_left x ≡ sum worker_left ws + worker_left y
moves w x y b a ws h =
    omega (arith, ap (sum worker_left) h, sum-at worker_left w x b a, sum-at worker_left w y b a)

left-Step : {J : Type 0} {s t : System J} → Step s t → left t < left s
left-Step (take j js f st c e) = rw e (ground arith)
left-Step (append j f q e) = rw e (ground arith)
left-Step (exhaust f st e) = rw e (ground arith)
left-Step (abort j js f st c e) = rw e (ground arith)
left-Step (shut f q e) = rw e (ground arith)
left-Step {s} (receive j js w b a q h e) =
    rw e (ground (arith, moves w receiving (testing j) b a s.workers h))
left-Step {s} (deliver j w b a h c e) =
    rw e (ground (arith, moves w (testing j) finishing b a s.workers h))
left-Step {s} (fail j w b a h e) =
    rw e (ground (arith, moves w (testing j) finishing b a s.workers h))
left-Step {s} (done w b a h e) = rw e (ground (arith, moves w finishing receiving b a s.workers h))
left-Step {s} (find_closed w b a q c h e) =
    rw e (ground (arith, moves w receiving telling b a s.workers h))
left-Step {s} (tell w b a c h e) = rw e (ground (arith, moves w telling gone b a s.workers h))
left-Step (stopped f c g e) = rw e (ground arith)
left-Step (close w c e) = rw e (ground arith)
left-Step (cancel c e) = rw e (ground arith)

-- How many steps a history has.
abbrev pub steps : {J : Type 0} {s t : System J} → Reach s t → ℕ
steps here = 0
steps (next r st) = suc (steps r)

steps-left : {J : Type 0} {s t : System J} (r : Reach s t) → steps r + left t ≤ left s
steps-left here = omega arith
steps-left (next r st) = omega (arith, steps-left r, left-Step st)

left-start_workers :
    (J : Type 0) (ws : List Worker) → sum {J = J} worker_left (start_workers ws) ≡ 2 * length ws
unfolding start_workers
left-start_workers J [] = refl
left-start_workers J (w ∷ ws) = omega (arith, left-start_workers J ws)

left-init :
    {J : Type 0} (name : Text) (n : ℕ) (stream : List J)
    → left (init name n stream) ≡ 5 * length stream + 2 * n + 4
unfolding init
left-init {J} name n stream =
    omega (arith, left-start_workers J (workers_from 0 name n), length-workers_from 0 name n)

-- With at least one worker the pool comes to its end, whatever the order in which its goroutines act
-- and whenever a signal comes: no history has more than 5 steps for each mutant, 2 for each worker and
-- 4 more, and one whose output channel is not closed can go on without a signal.
pub pool_ends :
    {J : Type 0} (name : Text) (n : ℕ) (stream : List J) {s : System J}
    → 0 < n
    → (r : Reach (init name n stream) s)
    → (steps r ≤ 5 * length stream + 2 * n + 4) × ((s.closed ≡ true) ⊎ CanStep s)
pool_ends name n stream h r =
    (omega (arith, steps-left r, left-init name n stream), Reach_CanStep name n stream h r)

follow : {J : Type 0} {s t u : System J} → Reach s t → Reach t u → Reach s u
follow r here = r
follow r (next r' st) = next (follow r r') st

-- A history brought to its end, with no signal and no mutant that cannot be applied.
abbrev pub Closes : {J : Type 0} → System J → Type 0
Closes {J} s =
    (t : System J) × Reach s t
    × (t.closed ≡ true)
    × (t.cancelled ≡ s.cancelled)
    × (t.failed ≡ s.failed)

ends_within :
    {J : Type 0} (name : Text) (n : ℕ) (stream : List J) (k : ℕ) (s : System J)
    → 0 < n
    → Reach (init name n stream) s
    → left s ≤ k
    → Closes s
ends_within name n stream zero s h r b = elim (Reach_CanStep name n stream h r) [
  | inl c ↦ (s, here, c, refl, refl)
  | inr (t, st, c, f) ↦ absurd (omega (arith, left-Step st))
]
ends_within name n stream (suc k) s h r b = elim (Reach_CanStep name n stream h r) [
  | inl c ↦ (s, here, c, refl, refl)
  | inr (t, st, c, f) ↦
      let (u, r', shut_, c', f') =
        ends_within name n stream k t h (next r st) (omega (arith, left-Step st)) in
      (u, follow (next here st) r', shut_, c' ∙ c, f' ∙ f)
]

pub Reach_Closes :
    {J : Type 0} (name : Text) (n : ℕ) (stream : List J) {s : System J}
    → 0 < n
    → Reach (init name n stream) s
    → Closes s
Reach_Closes name n stream {s} h r = ends_within name n stream (left s) s h r (omega arith)
