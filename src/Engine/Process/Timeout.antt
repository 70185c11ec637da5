-- ===== src/Engine/Process/Timeout.antt =====
-- Whether `run` can hang.
use gremlins.Prelude.{
  ℕ, suc, ◌+◌, ◌≤◌, ◌<◌, ◌≡◌, refl, true, Option, none, some, arith, ◌⊎◌, inl, inr,
}
use gremlins.Engine.Executor.{WaitError}
use gremlins.Engine.Process.{
  Platform, Leader, absent, running, exited, Place, starting, selecting, receiving, killing,
  releasing, returned, State, init, Own, fail, begin, wait, late, finish, receive, kill, release,
  Other, fork, fork_more, leave, strays_end, children_end, exit, pass, Reach, here, own, other,
}
use gremlins.Engine.Process.Orphans.{Known, Reach-Inv, has_exited}

-- How many steps the goroutines of `run` have left at most.
abbrev left_at : Place → ℕ
left_at starting = 5
left_at selecting = 4
left_at receiving = 3
left_at (killing e) = 2
left_at (releasing e) = 1
left_at (returned e) = 0

abbrev unsent : Option WaitError → ℕ
unsent none = 1
unsent (some e) = 0

abbrev pub left : State → ℕ
left s = left_at s.place + unsent s.done

left-Own : (p : Platform) {s t : State} → Own p s t → left t < left s
left-Own p (fail l e) = rw e (ground arith)
left-Own p (begin l e) = rw e (ground arith)
left-Own p (wait x l d e) = rw e (ground arith)
left-Own p (late l d e) = rw e (ground arith)
left-Own p (finish x l d e) = rw e (ground arith)
left-Own p (receive x l d e) = rw e (ground arith)
left-Own p (kill x l e) = rw e (ground arith)
left-Own p (release x l e) = rw e (ground arith)

left-Other : {s t : State} → Other s t → left t ≡ left s
left-Other (fork l e) = rw e refl
left-Other (fork_more l e) = rw e refl
left-Other (leave c e) = rw e refl
left-Other (strays_end e) = rw e refl
left-Other (children_end e) = rw e refl
left-Other (exit x l e) = rw e refl
left-Other (pass e) = rw e refl

-- The steps of the goroutines of `run` in a history.
abbrev pub own_steps : {p : Platform} {s t : State} → Reach p s t → ℕ
own_steps here = 0
own_steps (own r st) = suc (own_steps r)
own_steps (other r st) = own_steps r

own_steps-left : (p : Platform) {s t : State} (r : Reach p s t) → own_steps r + left t ≤ left s
own_steps-left p here = omega arith
own_steps-left p (own r st) = omega (arith, own_steps-left p r, left-Own p st)
own_steps-left p (other r st) = omega (arith, own_steps-left p r, left-Other st)

-- The goroutines of `run` make six steps at most, whatever the processes do.
pub own_steps_bounded : (p : Platform) {s : State} (r : Reach p init s) → own_steps r ≤ 6
own_steps_bounded p r = omega (arith, own_steps-left p r)

abbrev pub CanMove : Platform → State → Type 0
CanMove p s = (t : State) × Own p s t

exited_CanMove :
    (p : Platform) (s : State) (leader : Leader) (done : Option WaitError)
    → s.place ≡ receiving
    → s.group.leader ≡ leader
    → s.done ≡ done
    → has_exited leader ≡ true
    → CanMove p s
exited_CanMove p s (exited e) none l g d h = (_, wait e g d refl)
exited_CanMove p s leader (some e) l g d h = (_, receive e l d refl)
exited_CanMove p s absent none l g d h = absurd (cc)
exited_CanMove p s running none l g d h = absurd (cc)

place_CanMove :
    (p : Platform) (s : State) (place : Place)
    → s.place ≡ place
    → s.deadline ≡ true
    → Known p place s
    → ((e : WaitError) × (s.place ≡ returned e)) ⊎ CanMove p s
place_CanMove p s starting l d k = inr (_, begin l refl)
place_CanMove p s selecting l d k = inr (_, late l d refl)
place_CanMove p s receiving l d k = inr (exited_CanMove p s s.group.leader s.done l refl refl k.0)
place_CanMove p s (killing e) l d k = inr (_, kill e l refl)
place_CanMove p s (releasing e) l d k = inr (_, release e l refl)
place_CanMove p s (returned e) l d k = inl (e, l)

-- Once the deadline has passed `run` does not wait for the command: it has returned, or one of its
-- goroutines can move, and six moves are all they ever make.
pub late_CanMove :
    (p : Platform) {s : State} (r : Reach p init s)
    → s.deadline ≡ true
    → (((e : WaitError) × (s.place ≡ returned e)) ⊎ CanMove p s) × (own_steps r ≤ 6)
late_CanMove p {s} r d =
    (place_CanMove p s s.place refl d (Reach-Inv p r).known, own_steps_bounded p r)
