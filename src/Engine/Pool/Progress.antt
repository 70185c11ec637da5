-- ===== src/Engine/Pool/Progress.antt =====
-- Whether the pool can block, and how long a history of it can be.
use gremlins.Prelude.{
  ℕ, zero, suc, ◌+◌, ◌*◌, ◌≤◌, ◌<◌, ◌≡◌, refl, ap, Bool, true, false, List, [], ◌∷◌, length,
  length-append, if◌then◌else◌, arith, ◌⊎◌, inl, inr, Bool-cases,
}
use gremlins.Engine.Pool.{
  Feeder, waiting, stopping, ended, holding, Pool, init, Step, take, append, exhaust, abort,
  stopped, start, deliver, fail, done, close, cancel, Reach, here, next,
}
use gremlins.Engine.Pool.Invariant.{Inv, Reach-Inv}

-- The work that is left, each mutant weighted by the steps that it has before it.
abbrev pub feeder_work : {J : Type 0} → Feeder J → ℕ
feeder_work (holding j) = 7
feeder_work waiting = 2
feeder_work stopping = 1
feeder_work ended = 0

abbrev pub work : {J : Type 0} → Pool J → ℕ
work s =
    6 * length s.stream
    + feeder_work s.feeder
    + 4 * length s.queue
    + 3 * length s.running
    + 2 * s.finishing
    + (if s.closed then 0 else 1)
    + (if s.cancelled then 0 else 1)

work-Step : {J : Type 0} {s t : Pool J} → Step s t → work t < work s
work-Step (take j js f st c e) = rw e (ground arith)
work-Step (append j f q e) = rw e (ground arith)
work-Step (exhaust f st e) = rw e (ground arith)
work-Step (abort j js f st c e) = rw e (ground arith)
work-Step (stopped f q r fin e) = rw e (ground arith)
work-Step (start j js before after k q r i e) =
    rw e (ground (arith, ap length r, length-append before after, length-append before (j ∷ after)))
work-Step (deliver j before after r c e) =
    rw e (ground (arith, ap length r, length-append before after, length-append before (j ∷ after)))
work-Step (fail j before after r e) =
    rw e (ground (arith, ap length r, length-append before after, length-append before (j ∷ after)))
work-Step (done k f e) = rw e (ground arith)
work-Step (close w c e) = rw e (ground arith)
work-Step (cancel c e) = rw e (ground arith)

-- How many steps a history has.
abbrev steps : {J : Type 0} {s t : Pool J} → Reach s t → ℕ
steps here = 0
steps (next r st) = suc (steps r)

steps-work : {J : Type 0} {s t : Pool J} (r : Reach s t) → steps r + work t ≤ work s
steps-work here = omega arith
steps-work (next r st) = omega (arith, steps-work r, work-Step st)

-- No history is longer than 6 steps for each mutant and 4 more: the pool cannot run for ever.
steps_bounded :
    {J : Type 0} (n : ℕ) (stream : List J) {s : Pool J} (r : Reach (init n stream) s)
    → steps r ≤ 6 * length stream + 4
unfolding init
steps_bounded n stream r = omega (arith, steps-work r)

-- Some goroutine can act; a signal that cancels the context does not count.
abbrev pub CanStep : {J : Type 0} → Pool J → Type 0
CanStep {J} s = (t : Pool J) × Step s t × (t.cancelled ≡ s.cancelled)

busy_CanStep :
    {J : Type 0} (n : ℕ) (s : Pool J) (running : List J) (finishing : ℕ)
    → s.running ≡ running
    → s.finishing ≡ finishing
    → s.closed ≡ false
    → 0 < length running + finishing
    → CanStep s
busy_CanStep n s (j ∷ js) f r e c h = (_, deliver j [] js r c refl, refl)
busy_CanStep n s [] (suc k) r e c h = (_, done k e refl, refl)
busy_CanStep n s [] zero r e c h = absurd (omega arith)

queue_CanStep :
    {J : Type 0} (n : ℕ) (s : Pool J) (j : J) (js : List J) (idle : ℕ)
    → 0 < n
    → Inv n s
    → s.queue ≡ j ∷ js
    → s.idle ≡ idle
    → s.closed ≡ false
    → CanStep s
queue_CanStep n s j js (suc k) h v q i c = (_, start j js [] s.running k q refl i refl, refl)
queue_CanStep n s j js zero h v q i c =
    busy_CanStep n s s.running s.finishing refl refl c (omega (arith, v.workers_exact))

feeder_CanStep :
    {J : Type 0} (n : ℕ) (s : Pool J) (feeder : Feeder J) (stream queue running : List J)
    (finishing : ℕ) (cancelled : Bool)
    → 0 < n
    → Inv n s
    → s.feeder ≡ feeder
    → s.stream ≡ stream
    → s.queue ≡ queue
    → s.running ≡ running
    → s.finishing ≡ finishing
    → s.cancelled ≡ cancelled
    → s.closed ≡ false
    → CanStep s
feeder_CanStep n s (holding j) st [] r k b h v f e q l m x c = (_, append j f q refl, refl)
feeder_CanStep n s fd st (j ∷ js) r k b h v f e q l m x c =
    queue_CanStep n s j js s.idle h v q refl c
feeder_CanStep n s waiting [] [] r k b h v f e q l m x c = (_, exhaust f e refl, refl)
feeder_CanStep n s waiting (j ∷ js) [] r k true h v f e q l m x c = (_, abort j js f e x refl, refl)
feeder_CanStep n s waiting (j ∷ js) [] r k false h v f e q l m x c = (_, take j js f e x refl, refl)
feeder_CanStep n s fd st [] (j ∷ js) k b h v f e q l m x c =
    busy_CanStep n s s.running s.finishing refl refl c (omega (arith, ap length l))
feeder_CanStep n s fd st [] [] (suc k) b h v f e q l m x c = (_, done k m refl, refl)
feeder_CanStep n s stopping st [] [] zero b h v f e q l m x c = (_, stopped f q l m refl, refl)
feeder_CanStep n s ended st [] [] zero b h v f e q l m x c =
    (_, close (ground (arith, v.wg_exact)) c refl, refl)

-- With at least one worker the pool never blocks: after any interleaving the output channel is
-- closed, or some goroutine can act.
Reach_progress :
    {J : Type 0} (n : ℕ) (stream : List J) {s : Pool J}
    → 0 < n
    → Reach (init n stream) s
    → (s.closed ≡ true) ⊎ CanStep s
Reach_progress n stream {s} h r = elim (Bool-cases s.closed) [
  | inl c ↦ inl c
  | inr c ↦ inr (
      feeder_CanStep n s s.feeder s.stream s.queue s.running s.finishing s.cancelled h
        (Reach-Inv n stream r) refl refl refl refl refl refl c)
]
