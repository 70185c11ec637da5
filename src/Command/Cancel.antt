-- ===== src/Command/Cancel.antt =====
-- cmd/unleash.go: the goroutines of `runUnleash` and `runWithCancel`, with the context that a signal
-- cancels.
-- One constructor of `Step` is one action of one goroutine, so a history is any interleaving of
-- them. `R` is what `run` gives, an error or results.
use gremlins.Prelude.{◌≡◌, ◌≢◌, refl, Bool, true, false, Option, none, some, arith}

-- The goroutine that waits for the context: waiting, awake, or past `onCancel`.
pub data Watcher : Type 0 where
  waiting awake told : Watcher

-- How `runUnleash` ends: with what `run` gave, an error of its own or a report, or with nil because
-- it saw the cancellation.
pub data Ended (R : Type 0) : Type 0 where
  with_error with_report : R → Ended R
  quietly : Ended R

-- `signalled`: the context is done; `seen`: the context of the run was done when the run ended;
-- `cancelled` is the variable.
pub record State (R : Type 0) : Type 0 where
  pub signalled : Bool
  pub seen : Bool
  pub watcher : Watcher
  pub cancelled : Bool
  pub given : Option R
  pub ended : Option (Ended R)

unfoldable pub start : {R : Type 0} → State R
start = record {
  signalled = false;
  seen = false;
  watcher = waiting;
  cancelled = false;
  given = none;
  ended = none;
}

module _ {R : Type 0} (is_error : R → Bool) where
  -- The end of `runUnleash`: an error first, then the variable.
  unfoldable pub ending : Bool → R → Ended R
  ending cancelled r = elim (is_error r) [
    | true ↦ with_error r
    | false ↦ elim cancelled [ true ↦ quietly | false ↦ with_report r ]
  ]

  pub data Step (s : State R) : State R → Type 0 where
    -- A signal: the context is done, and with it that of the run.
    signal : s.signalled ≡ false → Step s (record s { signalled = true })
    -- The watcher wakes up, logs, and calls `cancel`.
    wake : s.signalled ≡ true → s.watcher ≡ waiting → Step s (record s { watcher = awake })
    -- `onCancel`.
    tell : s.watcher ≡ awake → Step s (record s { watcher = told; cancelled = true })
    -- `run` returns, and `wg.Done` runs.
    return_ : (r : R) → s.given ≡ none → Step s (record s { given = some r; seen = s.signalled })
    -- `wg.Wait` returns, and `runUnleash` reads the error and the variable.
    end :
        (r : R)
        → s.given ≡ some r
        → s.ended ≡ none
        → Step s (record s { ended = some (ending s.cancelled r) })

  pub data Reach (s : State R) : State R → Type 0 where
    here : Reach s s
    next : {t u : State R} → Reach s t → Step t u → Reach s u

  -- What holds after any interleaving.
  pub record Inv (s : State R) : Type 0 where
    pub awake_signalled : s.watcher ≢ waiting → s.signalled ≡ true
    pub cancelled_told : s.cancelled ≡ true → s.watcher ≡ told
    pub errors : (r : R) → s.ended ≡ some (with_error r) → (s.given ≡ some r) × (is_error r ≡ true)
    pub reports :
        (r : R) → s.ended ≡ some (with_report r) → (s.given ≡ some r) × (is_error r ≡ false)
    pub quiet : s.ended ≡ some quietly → (s.signalled ≡ true)

  Step-Inv : {s t : State R} → Step s t → Inv s → Inv t
  unfolding ending
  Step-Inv (signal a) v = record {
    awake_signalled = λ n. refl;
    cancelled_told = v.cancelled_told;
    errors = v.errors;
    reports = v.reports;
    quiet = λ e. refl;
  }
  Step-Inv (wake a b) v = record {
    awake_signalled = λ n. a;
    cancelled_told = λ c. absurd (ground (arith, v.cancelled_told c));
    errors = v.errors;
    reports = v.reports;
    quiet = v.quiet;
  }
  Step-Inv (tell a) v = record {
    awake_signalled = λ n. v.awake_signalled (ground arith);
    cancelled_told = λ c. refl;
    errors = v.errors;
    reports = v.reports;
    quiet = v.quiet;
  }
  Step-Inv (return_ r a) v = record {
    awake_signalled = v.awake_signalled;
    cancelled_told = v.cancelled_told;
    errors = λ r' e. absurd (ground (arith, v.errors r' e));
    reports = λ r' e. absurd (ground (arith, v.reports r' e));
    quiet = v.quiet;
  }
  Step-Inv {s} (end r a b) v = record {
    awake_signalled = v.awake_signalled;
    cancelled_told = v.cancelled_told;
    errors = λ r' e. ground arith;
    reports = λ r' e. ground arith;
    quiet = λ e. v.awake_signalled (ground (arith, v.cancelled_told (ground arith)));
  }

  -- However the goroutines interleave: an error is returned only if `run` gave it; a report is made
  -- only of results that `run` gave; and `runUnleash` ends quietly only after a signal.
  pub Reach-Inv : {s : State R} → Reach start s → Inv s
  unfolding start
  Reach-Inv here = record {
    awake_signalled = λ n. absurd (n refl);
    cancelled_told = λ c. cc;
    errors = λ r e. cc;
    reports = λ r e. cc;
    quiet = λ e. cc;
  }
  Reach-Inv (next r st) = Step-Inv st (Reach-Inv r)

  -- The variable may come too late: for any results there is a history in which the signal came
  -- before `run` returned them, and a report is made of them all the same.
  pub reported_after_signal :
      (r : R)
      → is_error r ≡ false
      → (s : State R) × Reach start s
        × (s.seen ≡ true)
        × (s.given ≡ some r)
        × (s.ended ≡ some (with_report r))
  unfolding start ending
  reported_after_signal r fine = (
    _,
    next (next (next here (signal refl)) (return_ r refl)) (end r refl refl),
    refl,
    refl,
    rw (fine, ending) refl,
  )
