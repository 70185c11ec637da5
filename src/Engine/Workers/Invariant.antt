-- ===== src/Engine/Workers/Invariant.antt =====
-- What holds of the workers with names after any interleaving: when one can have ended, and that
-- the workers stay the ones that `Initialize` made.
use gremlins.Prelude.{
  ℕ, zero, suc, length, ◌+◌, ◌<◌, ◌≡◌, refl, ap, ◌∙◌, true, List, [], ◌∷◌, ◌++◌, Text, arith,
}
use gremlins.Engine.Pool.{Feeder, waiting, holding}
use gremlins.Engine.Workers.{
  Worker, workers_from, At, receiving, finishing, telling, gone, testing, System, start_workers,
  init, Step, take, append, exhaust, abort, shut, receive, deliver, fail, done, find_closed, tell,
  stopped, close, cancel, Reach, here, next,
}

-- The workers, without where they are.
abbrev pub identities : {J : Type 0} → List (Worker × At J) → List Worker
identities [] = []
identities ((w, x) ∷ ws) = w ∷ identities ws

identities-set :
    {J : Type 0} (w : Worker) (x y : At J) (before after : List (Worker × At J))
    → identities (before ++ (w, x) ∷ after) ≡ identities (before ++ (w, y) ∷ after)
identities-set w x y [] after = refl
identities-set w x y ((v, z) ∷ before) after = ap (◌∷◌ v) (identities-set w x y before after)

-- The sum of a number over the places of the workers.
abbrev pub sum : {J : Type 0} → (At J → ℕ) → List (Worker × At J) → ℕ
sum f [] = 0
sum f ((w, x) ∷ ws) = f x + sum f ws

pub sum-append :
    {J : Type 0} (f : At J → ℕ) (xs ys : List (Worker × At J))
    → sum f (xs ++ ys) ≡ sum f xs + sum f ys
sum-append f [] ys = omega arith
sum-append f ((w, x) ∷ xs) ys = omega (arith, sum-append f xs ys)

-- Whether a worker has found the queue closed.
abbrev pub leaving : {J : Type 0} → At J → ℕ
leaving telling = 1
leaving gone = 1
leaving _ = 0

-- Whether the feeder can still append an executor.
abbrev pub feeding : {J : Type 0} → Feeder J → ℕ
feeding waiting = 1
feeding (holding j) = 1
feeding _ = 0

-- Whether the feeder has a mutant that is not appended yet.
abbrev pub holds_one : {J : Type 0} → Feeder J → ℕ
holds_one (holding j) = 1
holds_one _ = 0

pub record Inv {J : Type 0} (s : System J) : Type 0 where
  pub shut_stops : s.queue_closed ≡ true → feeding s.feeder ≡ 0
  pub left_shut : 0 < sum leaving s.workers → s.queue_closed ≡ true
  pub left_empty : 0 < sum leaving s.workers → s.queue ≡ []

pub sum-at :
    {J : Type 0} (f : At J → ℕ) (w : Worker) (x : At J) (before after : List (Worker × At J))
    → sum f (before ++ (w, x) ∷ after) ≡ sum f before + f x + sum f after
sum-at f w x before after = omega (arith, sum-append f before ((w, x) ∷ after))

-- A worker that moves between places of the same number keeps the sum.
pub sum-move :
    {J : Type 0} (f : At J → ℕ) (w : Worker) (x y : At J) (b a ws : List (Worker × At J))
    → ws ≡ b ++ (w, x) ∷ a
    → f x ≡ f y
    → sum f (b ++ (w, y) ∷ a) ≡ sum f ws
sum-move f w x y b a ws h e = omega (arith, e, ap (sum f) h, sum-at f w x b a, sum-at f w y b a)

pub sum-up :
    {J : Type 0} (f : At J → ℕ) (w : Worker) (x y : At J) (b a ws : List (Worker × At J))
    → ws ≡ b ++ (w, x) ∷ a
    → suc (f x) ≡ f y
    → sum f (b ++ (w, y) ∷ a) ≡ suc (sum f ws)
sum-up f w x y b a ws h e = omega (arith, e, ap (sum f) h, sum-at f w x b a, sum-at f w y b a)

Step-Inv : {J : Type 0} {s t : System J} → Step s t → Inv s → Inv t
Step-Inv (take j js f st c e) v = rw e (ground arith)
Step-Inv (append j f q e) v = rw e (ground arith)
Step-Inv (exhaust f st e) v = rw e (ground arith)
Step-Inv (abort j js f st c e) v = rw e (ground arith)
Step-Inv (shut f q e) v = rw e (ground arith)
Step-Inv (receive j js w b a q h e) v = rw e (
    ground
      (arith, ap (sum leaving) h, sum-at leaving w receiving b a, sum-at leaving w (testing j) b a))
Step-Inv (deliver j w b a h c e) v = rw e (
    ground
      (arith, ap (sum leaving) h, sum-at leaving w finishing b a, sum-at leaving w (testing j) b a))
Step-Inv (fail j w b a h e) v = rw e (
    ground
      (arith, ap (sum leaving) h, sum-at leaving w finishing b a, sum-at leaving w (testing j) b a))
Step-Inv (done w b a h e) v = rw e (
    ground
      (arith, ap (sum leaving) h, sum-at leaving w finishing b a, sum-at leaving w receiving b a))
Step-Inv (find_closed w b a q c h e) v = rw e (ground arith)
Step-Inv (tell w b a c h e) v =
    rw e
      (ground (arith, ap (sum leaving) h, sum-at leaving w telling b a, sum-at leaving w gone b a))
Step-Inv (stopped f c g e) v = rw e (ground arith)
Step-Inv (close w c e) v = rw e (ground arith)
Step-Inv (cancel c e) v = rw e (ground arith)

leaving-start_workers : (J : Type 0) (ws : List Worker) → sum {J = J} leaving (start_workers ws) ≡ 0
unfolding start_workers
leaving-start_workers J [] = refl
leaving-start_workers J (w ∷ ws) = omega (arith, leaving-start_workers J ws)

init-Inv : {J : Type 0} (name : Text) (n : ℕ) (stream : List J) → Inv (init name n stream)
unfolding init
init-Inv {J} name n stream = ground (arith, leaving-start_workers J (workers_from 0 name n))

-- A worker ends only once the queue is closed and empty, and then nothing is appended any more.
pub Reach-Inv :
    {J : Type 0} (name : Text) (n : ℕ) (stream : List J) {s : System J}
    → Reach (init name n stream) s
    → Inv s
Reach-Inv name n stream here = init-Inv name n stream
Reach-Inv name n stream (next r st) = Step-Inv st (Reach-Inv name n stream r)

identities-start_workers :
    (J : Type 0) (ws : List Worker) → identities (start_workers {J = J} ws) ≡ ws
unfolding start_workers
identities-start_workers J [] = refl
identities-start_workers J (w ∷ ws) = ap (◌∷◌ w) (identities-start_workers J ws)

identities-Step :
    {J : Type 0} {s t : System J} → Step s t → identities t.workers ≡ identities s.workers
identities-Step (take j js f st c e) = rw e refl
identities-Step (append j f q e) = rw e refl
identities-Step (exhaust f st e) = rw e refl
identities-Step (abort j js f st c e) = rw e refl
identities-Step (shut f q e) = rw e refl
identities-Step (receive j js w b a q h e) = rw (e, h) (identities-set w (testing j) receiving b a)
identities-Step (deliver j w b a h c e) = rw (e, h) (identities-set w finishing (testing j) b a)
identities-Step (fail j w b a h e) = rw (e, h) (identities-set w finishing (testing j) b a)
identities-Step (done w b a h e) = rw (e, h) (identities-set w receiving finishing b a)
identities-Step (find_closed w b a q c h e) = rw (e, h) (identities-set w telling receiving b a)
identities-Step (tell w b a c h e) = rw (e, h) (identities-set w gone telling b a)
identities-Step (stopped f c g e) = rw e refl
identities-Step (close w c e) = rw e refl
identities-Step (cancel c e) = rw e refl

-- The workers stay the ones that `Initialize` made, in its order.
pub identities-Reach :
    {J : Type 0} (name : Text) (n : ℕ) (stream : List J) {s : System J}
    → Reach (init name n stream) s
    → identities s.workers ≡ workers_from 0 name n
unfolding init
identities-Reach {J} name n stream here = identities-start_workers J (workers_from 0 name n)
identities-Reach name n stream (next r st) = identities-Step st ∙ identities-Reach name n stream r

pub length-workers_from : (i : ℕ) (name : Text) (n : ℕ) → length (workers_from i name n) ≡ n
unfolding workers_from
length-workers_from i name zero = refl
length-workers_from i name (suc n) = omega (arith, length-workers_from (suc i) name n)

length-identities : {J : Type 0} (ws : List (Worker × At J)) → length (identities ws) ≡ length ws
length-identities [] = refl
length-identities ((w, x) ∷ ws) = omega (arith, length-identities ws)

pub length-Reach :
    {J : Type 0} (name : Text) (n : ℕ) (stream : List J) {s : System J}
    → Reach (init name n stream) s
    → length s.workers ≡ n
length-Reach name n stream {s} r = omega (
  arith,
  length-identities s.workers,
  length-workers_from 0 name n,
  ap (λ (l : List Worker). length l) (identities-Reach name n stream r),
)
