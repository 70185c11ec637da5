-- ===== src/Engine/Workers/Progress.antt =====
-- Whether the workers with names, the feeder and `Stop` can block.
use gremlins.Prelude.{
  ℕ, zero, suc, length, ◌+◌, ◌<◌, ◌≡◌, refl, ap, Bool, true, false, List, [], ◌∷◌, ◌++◌, Text,
  arith, ◌⊎◌, inl, inr, Bool-cases,
}
use gremlins.Engine.Pool.{Feeder, waiting, stopping, ended, holding}
use gremlins.Engine.Pool.Invariant as Counted
use gremlins.Engine.Workers.{
  Worker, At, receiving, finishing, telling, gone, testing, System, init, AllGone, Step, take,
  append, exhaust, abort, shut, receive, deliver, done, find_closed, tell, stopped, close, Reach,
}
use gremlins.Engine.Workers.Invariant.{sum, sum-at, leaving, Inv, Reach-Inv, length-Reach}
use gremlins.Engine.Workers.Refinement.{tested, done_left, forget, Reach-forget}

-- A worker of the list whose place counts.
record Found {J : Type 0} (f : At J → ℕ) (ws : List (Worker × At J)) : Type 0 where
  worker : Worker
  place : At J
  before : List (Worker × At J)
  after : List (Worker × At J)
  found : ws ≡ before ++ (worker, place) ∷ after
  counts : 0 < f place

locate_from :
    {J : Type 0} (f : At J → ℕ) (w : Worker) (x : At J) (ws : List (Worker × At J)) (k : ℕ)
    → f x ≡ k
    → (0 < sum f ws → Found f ws)
    → 0 < f x + sum f ws
    → Found f ((w, x) ∷ ws)
locate_from f w x ws (suc k) e rest h = record {
  worker = w;
  place = x;
  before = [];
  after = ws;
  found = refl;
  counts = omega arith;
}
locate_from f w x ws zero e rest h =
    let r = rest (omega arith) in
    record {
      worker = r.worker;
      place = r.place;
      before = (w, x) ∷ r.before;
      after = r.after;
      found = ap (◌∷◌ (w, x)) r.found;
      counts = r.counts;
    }

locate : {J : Type 0} (f : At J → ℕ) (ws : List (Worker × At J)) → 0 < sum f ws → Found f ws
locate f [] h = absurd (omega arith)
locate f ((w, x) ∷ ws) h = locate_from f w x ws (f x) refl (locate f ws) h

-- A worker that can act whatever the queue holds, and one that waits for it.
abbrev active : {J : Type 0} → At J → ℕ
active (testing j) = 1
active finishing = 1
active telling = 1
active _ = 0

abbrev waits : {J : Type 0} → At J → ℕ
waits receiving = 1
waits _ = 0

-- Some goroutine can act; a signal that cancels the context does not count, nor does a mutant that
-- cannot be applied.
abbrev pub CanStep : {J : Type 0} → System J → Type 0
CanStep {J} s = (t : System J) × Step s t × (t.cancelled ≡ s.cancelled) × (t.failed ≡ s.failed)

active-CanStep :
    {J : Type 0} (s : System J) (w : Worker) (x : At J) (b a : List (Worker × At J))
    → Inv s
    → s.closed ≡ false
    → s.workers ≡ b ++ (w, x) ∷ a
    → 0 < active x
    → CanStep s
active-CanStep s w (testing j) b a v c e h = (_, deliver j w b a e c refl, refl, refl)
active-CanStep s w finishing b a v c e h = (_, done w b a e refl, refl, refl)
active-CanStep s w telling b a v c e h = (
  _,
  tell w b a (v.left_shut (omega (arith, ap (sum leaving) e, sum-at leaving w telling b a))) e refl,
  refl,
  refl,
)
active-CanStep s w receiving b a v c e h = absurd (omega arith)
active-CanStep s w gone b a v c e h = absurd (omega arith)

waits-CanStep :
    {J : Type 0} (s : System J) (w : Worker) (x : At J) (b a : List (Worker × At J))
    (queue : List J)
    → s.workers ≡ b ++ (w, x) ∷ a
    → 0 < waits x
    → s.queue ≡ queue
    → (queue ≡ [] → s.queue_closed ≡ true)
    → CanStep s
waits-CanStep s w receiving b a (j ∷ js) e h q c = (_, receive j js w b a q e refl, refl, refl)
waits-CanStep s w receiving b a [] e h q c = (_, find_closed w b a q (c refl) e refl, refl, refl)
waits-CanStep s w (testing j) b a queue e h q c = absurd (omega arith)
waits-CanStep s w finishing b a queue e h q c = absurd (omega arith)
waits-CanStep s w telling b a queue e h q c = absurd (omega arith)
waits-CanStep s w gone b a queue e h q c = absurd (omega arith)

-- Where no worker is active, the others wait or have left.
still :
    {J : Type 0} (ws : List (Worker × At J))
    → sum active ws ≡ 0
    → (sum waits ws + sum leaving ws ≡ length ws) × (tested ws ≡ []) × (sum done_left ws ≡ 0)
still [] h = (refl, refl, refl)
still ((w, receiving) ∷ ws) h =
    let (n, t, d) = still ws (omega arith) in (omega arith, t, omega arith)
still ((w, gone) ∷ ws) h = let (n, t, d) = still ws (omega arith) in (omega arith, t, omega arith)
still ((w, testing j) ∷ ws) h = absurd (omega arith)
still ((w, finishing) ∷ ws) h = absurd (omega arith)
still ((w, telling) ∷ ws) h = absurd (omega arith)

all_gone :
    {J : Type 0} (ws : List (Worker × At J)) → sum active ws ≡ 0 → sum waits ws ≡ 0 → AllGone ws
all_gone [] h k = tt
all_gone ((w, gone) ∷ ws) h k = all_gone ws (omega arith) (omega arith)
all_gone ((w, receiving) ∷ ws) h k = absurd (omega arith)
all_gone ((w, testing j) ∷ ws) h k = absurd (omega arith)
all_gone ((w, finishing) ∷ ws) h k = absurd (omega arith)
all_gone ((w, telling) ∷ ws) h k = absurd (omega arith)

waiting_CanStep :
    {J : Type 0} (s : System J) (queue : List J)
    → s.queue ≡ queue
    → (queue ≡ [] → s.queue_closed ≡ true)
    → 0 < sum waits s.workers
    → CanStep s
waiting_CanStep s queue q c h =
    let w = locate waits s.workers h in
    waits-CanStep s w.worker w.place w.before w.after queue w.found w.counts q c

-- `Stop` closes the queue, waits for a worker that waits for the queue, or returns.
stop_CanStep :
    {J : Type 0} (s : System J) (shut_already : Bool) (waiting_workers : ℕ)
    → s.feeder ≡ stopping
    → s.queue ≡ []
    → sum active s.workers ≡ 0
    → s.queue_closed ≡ shut_already
    → sum waits s.workers ≡ waiting_workers
    → CanStep s
stop_CanStep s false n f q a c e = (_, shut f c refl, refl, refl)
stop_CanStep s true (suc n) f q a c e = waiting_CanStep s [] q (λ h. c) (omega arith)
stop_CanStep s true zero f q a c e = (_, stopped f c (all_gone s.workers a e) refl, refl, refl)

feeder_CanStep :
    {J : Type 0} (s : System J) (feeder : Feeder J) (stream : List J) (cancelled : Bool)
    → s.feeder ≡ feeder
    → s.stream ≡ stream
    → s.cancelled ≡ cancelled
    → s.queue ≡ []
    → sum active s.workers ≡ 0
    → (s.feeder ≡ ended → s.wg ≡ 0)
    → s.closed ≡ false
    → CanStep s
feeder_CanStep s (holding j) st x f e k q a w c = (_, append j f q refl, refl, refl)
feeder_CanStep s waiting [] x f e k q a w c = (_, exhaust f e refl, refl, refl)
feeder_CanStep s waiting (j ∷ js) true f e k q a w c = (_, abort j js f e k refl, refl, refl)
feeder_CanStep s waiting (j ∷ js) false f e k q a w c = (_, take j js f e k refl, refl, refl)
feeder_CanStep s stopping st x f e k q a w c =
    stop_CanStep s s.queue_closed (sum waits s.workers) f q a refl refl
feeder_CanStep s ended st x f e k q a w c = (_, close (w f) c refl, refl, refl)

-- No worker is active: one takes an executor from the queue, or the feeder acts.
still_CanStep :
    {J : Type 0} (n : ℕ) (s : System J) (queue : List J)
    → Inv s
    → Counted.Inv n (forget s)
    → length s.workers ≡ n
    → 0 < n
    → sum active s.workers ≡ 0
    → s.queue ≡ queue
    → s.closed ≡ false
    → CanStep s
still_CanStep n s (j ∷ js) v u many h a q c =
    let (all, t, d) = still s.workers a in
    waiting_CanStep s (j ∷ js) q (λ e. cc) (ground (arith, v.left_empty))
still_CanStep n s [] v u many h a q c =
    let (all, t, d) = still s.workers a in
    feeder_CanStep s s.feeder s.stream s.cancelled refl refl refl q a
      (λ e. ground (arith, u.wg_exact)) c

open_CanStep :
    {J : Type 0} (n : ℕ) (s : System J) (k : ℕ)
    → Inv s
    → Counted.Inv n (forget s)
    → length s.workers ≡ n
    → 0 < n
    → sum active s.workers ≡ k
    → s.closed ≡ false
    → CanStep s
open_CanStep n s zero v u many h a c = still_CanStep n s s.queue v u many h a refl c
open_CanStep n s (suc k) v u many h a c =
    let w = locate active s.workers (omega arith) in
    active-CanStep s w.worker w.place w.before w.after v c w.found w.counts

-- With at least one worker nothing blocks, the end of the workers included: after any interleaving
-- the output channel is closed, or some goroutine can act.
pub Reach_CanStep :
    {J : Type 0} (name : Text) (n : ℕ) (stream : List J) {s : System J}
    → 0 < n
    → Reach (init name n stream) s
    → (s.closed ≡ true) ⊎ CanStep s
Reach_CanStep name n stream {s} h r = elim (Bool-cases s.closed) [
  | inl c ↦ inl c
  | inr c ↦ inr (
      open_CanStep n s (sum active s.workers) (Reach-Inv name n stream r)
        (Counted.Reach-Inv n stream (Reach-forget name n stream h r)) (length-Reach name n stream r)
        h refl c)
]
