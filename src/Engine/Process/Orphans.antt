-- ===== src/Engine/Process/Orphans.antt =====
-- What `run` leaves behind, and what it returns.
use mathlib.Core.Path.{subst}
use gremlins.Prelude.{
  ◌≡◌, ◌≢◌, refl, sym, pos, Bool, true, false, Option, some, arith, ◌⊎◌, inl, inr,
}
use gremlins.Engine.Executor.{
  WaitError, other_error, exit_error, Ended, not_started, deadline_came, finished, TestRun, run,
  is_late,
}
use gremlins.Engine.Process.{
  Platform, unix, windows, Leader, absent, running, exited, setup_process_group, kill_process_group,
  killed_leader, Place, starting, selecting, receiving, killing, releasing, returned, State, init,
  Own, fail, begin, wait, late, finish, receive, kill, release, Other, fork, fork_more, leave,
  strays_end, children_end, exit, pass, Reach, here, own, other,
}

abbrev pub has_exited : Leader → Bool
has_exited (exited e) = true
has_exited _ = false

-- What `run` is to return: the end of the first process, or, where the `select` took the other case,
-- the error of a context whose deadline has passed.
abbrev pub Right : WaitError → State → Type 0
Right e s =
    ((s.timed ≡ false) × (s.group.leader ≡ exited e))
    ⊎ ((s.timed ≡ true) × (e ≡ other_error) × (s.deadline ≡ true))

abbrev pub is_unix : Platform → Bool
is_unix unix = true
is_unix windows = false

-- The group after a kill: on Unix no process of it is left.
abbrev pub Dead : Platform → State → Type 0
Dead p s = (has_exited s.group.leader ≡ true) × (is_unix p ≡ true → s.group.children ≡ false)

-- On Unix the first process leads a group of its own.
abbrev pub Leads : Platform → State → Type 0
Leads p s = is_unix p ≡ true → s.group.leads ≡ true

-- No process was ever started.
abbrev pub NoProcess : State → Type 0
NoProcess s = (s.group.leader ≡ absent) × (s.group.children ≡ false) × (s.timed ≡ false)

-- What is known at each place of `run`.
abbrev pub Known : Platform → Place → State → Type 0
Known p starting s = NoProcess s
Known p selecting s = (s.group.leader ≢ absent) × Leads p s × (s.timed ≡ false)
Known p receiving s =
    (has_exited s.group.leader ≡ true) × (s.deadline ≡ true) × Leads p s × (s.timed ≡ true)
Known p (killing e) s = (has_exited s.group.leader ≡ true) × Right e s × Leads p s
Known p (releasing e) s = Dead p s × Right e s
Known p (returned e) s =
    (NoProcess s × (e ≡ other_error)) ⊎ (Dead p s × Right e s × (s.released ≡ true))

pub record Inv (p : Platform) (s : State) : Type 0 where
  pub known : Known p s.place s
  pub done_exited : (e : WaitError) → s.done ≡ some e → s.group.leader ≡ exited e

Known-Other : (p : Platform) {s t : State} (pl : Place) → Other s t → Known p pl s → Known p pl t
Known-Other p pl (fork l e) k = rw e (ground arith)
Known-Other p pl (fork_more l e) k = rw e (ground arith)
Known-Other p pl (leave c e) k = rw e (ground arith)
Known-Other p pl (strays_end e) k = rw e (ground arith)
Known-Other p pl (children_end e) k = rw e (ground arith)
Known-Other p pl (exit x l e) k = rw e (ground arith)
Known-Other p pl (pass e) k = rw e (ground arith)

Known-done :
    (p : Platform) (s : State) (pl : Place) (d : Option WaitError)
    → Known p pl s
    → Known p pl (record s { done = d })
Known-done p s pl d k = ground arith

Own-Inv : (p : Platform) {s t : State} → Own p s t → Inv p s → Inv p t
unfolding kill_process_group killed_leader setup_process_group
Own-Inv p (fail l e) v = rw e (ground arith)
Own-Inv p (begin l e) v = rw e (ground arith)
Own-Inv p {s} (wait x l d e) v =
    rw e (record {
      known = Known-done p s s.place (some x) v.known;
      done_exited = λ y h. ground arith;
    })
Own-Inv p (late l d e) v = rw e (ground arith)
Own-Inv p (finish x l d e) v = rw e (ground (arith, v.done_exited x))
Own-Inv p (receive x l d e) v = rw e (ground (arith, v.done_exited x))
Own-Inv p (kill x l e) v = rw e (ground arith)
Own-Inv p (release x l e) v = rw e (ground arith)

same_place : {s t : State} → Other s t → t.place ≡ s.place
same_place (fork l e) = rw e refl
same_place (fork_more l e) = rw e refl
same_place (leave c e) = rw e refl
same_place (strays_end e) = rw e refl
same_place (children_end e) = rw e refl
same_place (exit x l e) = rw e refl
same_place (pass e) = rw e refl

still_exited :
    {s t : State}
    → Other s t
    → (y : WaitError) → (s.done ≡ some y → s.group.leader ≡ exited y)
    → t.done ≡ some y
    → t.group.leader ≡ exited y
still_exited (fork l e) y h d = ground arith
still_exited (fork_more l e) y h d = ground arith
still_exited (leave c e) y h d = ground arith
still_exited (strays_end e) y h d = ground arith
still_exited (children_end e) y h d = ground arith
still_exited (exit x l e) y h d = ground arith
still_exited (pass e) y h d = ground arith

Other-Inv : (p : Platform) {s t : State} → Other s t → Inv p s → Inv p t
Other-Inv p {s} {t} o v = record {
  known = subst (λ pl. Known p pl t) (sym (same_place o)) (Known-Other p s.place o v.known);
  done_exited = λ y. still_exited o y (v.done_exited y);
}

pub Reach-Inv : (p : Platform) {s : State} → Reach p init s → Inv p s
Reach-Inv p here = record { known = (refl, refl, refl); done_exited = λ e h. cc }
Reach-Inv p (own r st) = Own-Inv p st (Reach-Inv p r)
Reach-Inv p (other r st) = Other-Inv p st (Reach-Inv p r)

-- On Unix, once `run` has returned, neither the first process of the command nor any process that is
-- still in its group runs, whatever they did; and where there was a process it is released.
pub no_orphans :
    {s : State} (e : WaitError)
    → Reach unix init s
    → s.place ≡ returned e
    → (s.group.leader ≢ running)
      × (s.group.children ≡ false)
      × ((s.group.leader ≡ absent) ⊎ (s.released ≡ true))
no_orphans {s} e r back =
    let known : Known unix (returned e) s =
      subst (λ pl. Known unix pl s) back (Reach-Inv unix r).known in
    ground arith

-- On Unix a child that has left the group can be left.
stray_on_unix :
    (s : State) × Reach unix init s
    × (s.place ≡ returned (exit_error (pos 1)))
    × (s.group.strays ≡ true)
unfolding kill_process_group killed_leader setup_process_group
stray_on_unix = (
  _,
  own
      (own
        (own
          (own
            (other (other (other (own here (begin refl refl)) (fork refl refl)) (leave refl refl))
              (exit (exit_error (pos 1)) refl refl))
            (wait _ refl refl refl))
          (finish _ refl refl refl))
        (kill _ refl refl))
      (release _ refl refl),
  refl,
  refl,
)

-- On Windows a child can be left.
pub orphan_on_windows :
    (s : State) × Reach windows init s
    × (s.place ≡ returned (exit_error (pos 1)))
    × (s.group.children ≡ true)
unfolding kill_process_group killed_leader setup_process_group
orphan_on_windows = (
  _,
  own
      (own
        (own
          (own
            (other (other (own here (begin refl refl)) (fork refl refl))
              (exit (exit_error (pos 1)) refl refl))
            (wait _ refl refl refl))
          (finish _ refl refl refl))
        (kill _ refl refl))
      (release _ refl refl),
  refl,
  refl,
)

-- What a run of Engine/Executor says of the processes.
abbrev pub Tells : Ended → State → Type 0
Tells not_started s = s.group.leader ≡ absent
Tells deadline_came s = (s.timed ≡ true) × (s.deadline ≡ true)
Tells (finished e) s = (s.timed ≡ false) × (s.group.leader ≡ exited e)

-- Whatever the order of the steps, the error that `run` returns is the one that `run` of
-- Engine/Executor gives: for a command that was not started, for the case `ctx.Done()` of the `select`,
-- taken after the deadline, or for its other case and the end of the first process; and `runTests`
-- then finds it late exactly if the deadline has passed.
pub run_refines :
    (p : Platform) {s : State} (e : WaitError)
    → Reach p init s
    → s.place ≡ returned e
    → (r : TestRun) × (run r ≡ e)
      × (r.deadline_passed ≡ s.deadline)
      × (is_late r ≡ s.deadline)
      × Tells r.ended s
unfolding run
run_refines p {s} e r back = elim (subst (λ pl. Known p pl s) back (Reach-Inv p r).known) [
  | inl (none_there, it) ↦ (
    record { ended = not_started; deadline_passed = s.deadline },
    sym it,
    refl,
    refl,
    none_there.0,
  )
  | inr (dead, right, done) ↦ elim right [
    | inl (not_timed, ended) ↦ (
      record { ended = finished e; deadline_passed = s.deadline },
      refl,
      refl,
      refl,
      (not_timed, ended),
    )
    | inr (timed_, it, passed) ↦ (
      record { ended = deadline_came; deadline_passed = s.deadline },
      sym it,
      refl,
      sym passed,
      (timed_, passed),
    )
  ]
]
