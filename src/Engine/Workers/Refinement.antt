-- ===== src/Engine/Workers/Refinement.antt =====
-- The workers with names do what Engine/Pool says of workers that are only counted.
use mathlib.Core.Path.{subst}
use mathlib.Core.List.{append_assoc}
use gremlins.Prelude.{
  ℕ, ◌+◌, ◌-◌, ◌<◌, ◌≡◌, refl, sym, ap, ◌∙◌, List, [], ◌∷◌, ◌++◌, Text, arith, length, ◌⊎◌, inl,
  inr,
}
use gremlins.Engine.Pool
use gremlins.Engine.Pool.{Pool}
use gremlins.Engine.Workers.{
  Worker, workers_from, At, receiving, finishing, telling, gone, testing, System, start_workers,
  init, AllGone, Step, take, append, exhaust, abort, shut, receive, deliver, fail, done,
  find_closed, tell, stopped, close, cancel, Reach, here, next,
}
use gremlins.Engine.Workers.Invariant.{
  sum, sum-at, sum-move, sum-up, length-Reach, length-workers_from, leaving, Inv, Reach-Inv,
}

-- The mutant that a worker tests.
abbrev pub in_hand : {J : Type 0} → At J → List J
in_hand (testing j) = j ∷ []
in_hand _ = []

abbrev pub tested : {J : Type 0} → List (Worker × At J) → List J
tested [] = []
tested ((w, x) ∷ ws) = in_hand x ++ tested ws

abbrev pub done_left : {J : Type 0} → At J → ℕ
done_left finishing = 1
done_left _ = 0

abbrev pub free : {J : Type 0} → At J → ℕ
free receiving = 1
free telling = 1
free gone = 1
free _ = 0

-- The state of Engine/Pool: the workers by their number only, those that have ended among the idle.
abbrev pub forget : {J : Type 0} → System J → Pool J
forget s = record {
  stream = s.stream;
  feeder = s.feeder;
  queue = s.queue;
  running = tested s.workers;
  finishing = sum done_left s.workers;
  idle = sum free s.workers;
  results = s.results;
  failed = s.failed;
  discarded = s.discarded;
  wg = s.wg;
  cancelled = s.cancelled;
  closed = s.closed;
}

tested-append :
    {J : Type 0} (xs ys : List (Worker × At J)) → tested (xs ++ ys) ≡ tested xs ++ tested ys
tested-append [] ys = refl
tested-append ((w, x) ∷ xs) ys =
    ap (λ (l : List _). in_hand x ++ l) (tested-append xs ys)
    ∙ sym (append_assoc (in_hand x) (tested xs) (tested ys))

AllGone-tested : {J : Type 0} (ws : List (Worker × At J)) → AllGone ws → tested ws ≡ []
AllGone-tested [] h = refl
AllGone-tested ((w, gone) ∷ ws) h = AllGone-tested ws h
AllGone-tested ((w, receiving) ∷ ws) h = absurd h
AllGone-tested ((w, finishing) ∷ ws) h = absurd h
AllGone-tested ((w, telling) ∷ ws) h = absurd h
AllGone-tested ((w, testing j) ∷ ws) h = absurd h

AllGone-sums :
    {J : Type 0} (ws : List (Worker × At J))
    → AllGone ws
    → (sum done_left ws ≡ 0) × (sum leaving ws ≡ length ws)
AllGone-sums [] h = (refl, refl)
AllGone-sums ((w, gone) ∷ ws) h = omega (arith, AllGone-sums ws h)
AllGone-sums ((w, receiving) ∷ ws) h = absurd h
AllGone-sums ((w, finishing) ∷ ws) h = absurd h
AllGone-sums ((w, telling) ∷ ws) h = absurd h
AllGone-sums ((w, testing j) ∷ ws) h = absurd h

-- The state with other workers, seen as their numbers and what they test.
abbrev counted_as : {J : Type 0} → System J → List J → ℕ → ℕ → Pool J
counted_as s r f i = record (forget s) { running = r; finishing = f; idle = i }

same_pool :
    {J : Type 0} (s : System J) {r r' : List J} {f f' i i' : ℕ}
    → r ≡ r'
    → f ≡ f'
    → i ≡ i'
    → counted_as s r f i ≡ counted_as s r' f' i'
same_pool s p q o = λ k. counted_as s (p k) (q k) (o k)

tested-at :
    {J : Type 0} (w : Worker) (x : At J) (b a : List (Worker × At J))
    → tested (b ++ (w, x) ∷ a) ≡ tested b ++ (in_hand x ++ tested a)
tested-at w x b a = tested-append b ((w, x) ∷ a)

simulates :
    {J : Type 0} {s t : System J}
    → Step s t
    → Inv s
    → 0 < length s.workers
    → (forget t ≡ forget s) ⊎ Pool.Step (forget s) (forget t)
simulates (take j js f st c e) v n = inr (Pool.take j js f st c (ap forget e))
simulates (append j f q e) v n = inr (Pool.append j f q (ap forget e))
simulates (exhaust f st e) v n = inr (Pool.exhaust f st (ap forget e))
simulates (abort j js f st c e) v n = inr (Pool.abort j js f st c (ap forget e))
simulates (shut f q e) v n = inl (ap forget e)
simulates {s = s} (receive j js w b a q h e) v n = inr (
    Pool.start j js (tested b) (tested a) (sum free b + sum free a) q
      (ap tested h ∙ tested-at w receiving b a)
      (omega (arith, ap (sum free) h, sum-at free w receiving b a))
      (ap forget e
        ∙ same_pool (record s { queue = js }) (tested-at w (testing j) b a)
            (sum-move done_left w receiving (testing j) b a s.workers h refl)
            (omega (arith, sum-at free w (testing j) b a))))
simulates {s = s} (deliver j w b a h c e) v n = inr (
    Pool.deliver j (tested b) (tested a) (ap tested h ∙ tested-at w (testing j) b a) c (
      ap forget e
      ∙ same_pool (record s { results = s.results ++ j ∷ [] }) (tested-at w finishing b a)
          (sum-up done_left w (testing j) finishing b a s.workers h refl)
          (sum-move free w (testing j) finishing b a s.workers h refl)))
simulates {s = s} (fail j w b a h e) v n = inr (
    Pool.fail j (tested b) (tested a) (ap tested h ∙ tested-at w (testing j) b a) (
      ap forget e
      ∙ same_pool (record s { failed = j ∷ s.failed }) (tested-at w finishing b a)
          (sum-up done_left w (testing j) finishing b a s.workers h refl)
          (sum-move free w (testing j) finishing b a s.workers h refl)))
simulates {s = s} (done w b a h e) v n = inr (
    Pool.done (sum done_left b + sum done_left a)
      (omega (arith, ap (sum done_left) h, sum-at done_left w finishing b a))
      (ap forget e
        ∙ same_pool (record s { wg = s.wg - 1 })
            (tested-at w receiving b a ∙ sym (ap tested h ∙ tested-at w finishing b a))
            (omega (arith, sum-at done_left w receiving b a))
            (sum-up free w finishing receiving b a s.workers h refl)))
simulates {s = s} (find_closed w b a q c h e) v n = inl (
    ap forget e
    ∙ same_pool s (tested-at w telling b a ∙ sym (ap tested h ∙ tested-at w receiving b a))
        (sum-move done_left w receiving telling b a s.workers h refl)
        (sum-move free w receiving telling b a s.workers h refl))
simulates {s = s} (tell w b a c h e) v n = inl (
    ap forget e
    ∙ same_pool s (tested-at w gone b a ∙ sym (ap tested h ∙ tested-at w telling b a))
        (sum-move done_left w telling gone b a s.workers h refl)
        (sum-move free w telling gone b a s.workers h refl))
simulates {s = s} (stopped f c g e) v n =
    let (none_done, all_left) = AllGone-sums s.workers g in
    inr (
      Pool.stopped f (v.left_empty (omega arith)) (AllGone-tested s.workers g) none_done
        (ap forget e))
simulates (close w c e) v n = inr (Pool.close w c (ap forget e))
simulates (cancel c e) v n = inr (Pool.cancel c (ap forget e))

start_workers_counts :
    (J : Type 0) (ws : List Worker)
    → (tested (start_workers {J = J} ws) ≡ [])
      × (sum done_left (start_workers {J = J} ws) ≡ 0)
      × (sum free (start_workers {J = J} ws) ≡ length ws)
unfolding start_workers
start_workers_counts J [] = (refl, refl, refl)
start_workers_counts J (w ∷ ws) =
    let (t, d, f) = start_workers_counts J ws in (t, omega (arith, d), omega (arith, f))

forget-init :
    {J : Type 0} (name : Text) (n : ℕ) (stream : List J)
    → forget (init name n stream) ≡ Pool.init n stream
unfolding init Pool.init
forget-init {J} name n stream =
    let (t, d, f) = start_workers_counts J (workers_from 0 name n) in
    same_pool (init name n stream) t d (omega (arith, f, length-workers_from 0 name n))

-- With at least one worker, whatever the workers with names do one after the other, the workers that
-- are only counted can do: every history of the former is a history of the latter, in which the
-- closing of the queue and the ends of the workers do not show.
pub Reach-forget :
    {J : Type 0} (name : Text) (n : ℕ) (stream : List J) {s : System J}
    → 0 < n
    → Reach (init name n stream) s
    → Pool.Reach (Pool.init n stream) (forget s)
Reach-forget name n stream h here =
    subst (Pool.Reach (Pool.init n stream)) (sym (forget-init name n stream)) Pool.here
Reach-forget name n stream h (next r st) =
    let before = Reach-forget name n stream h r in
    elim (simulates st (Reach-Inv name n stream r) (omega (arith, length-Reach name n stream r))) [
      | inl same ↦ subst (Pool.Reach (Pool.init n stream)) (sym same) before
      | inr moved ↦ Pool.next before moved
    ]
