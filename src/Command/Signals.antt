-- ===== src/Command/Signals.antt =====
-- cmd/gremlins/main.go: `ctxDoneOnSignal`, its goroutine against the signals that arrive.
-- One constructor of `Step` is one action, while the program runs. Delivering a signal is what
-- os/signal documents, a send to the channel that does not block: a signal for which there is no room
-- is lost. A send to a closed channel is a panic, which ends the program.
use mathlib.Core.Path.{subst}
use gremlins.Prelude.{
  Bool-cases, ℕ, suc, ◌≤◌, ◌≡◌, ◌⊎◌, inl, inr, refl, sym, Bool, true, false, arith,
}

-- The goroutine: at the receipt, before `cancel`, before `close`, or at its end.
pub data Place : Type 0 where
  receiving cancelling closing ended : Place

-- `done` is the channel: whether its one slot is taken, and whether it is closed. `cancelled`: the
-- context is done. `signals` counts those that have arrived.
pub record State : Type 0 where
  pub place : Place
  pub taken : Bool
  pub closed : Bool
  pub cancelled : Bool
  pub panicked : Bool
  pub signals : ℕ

-- `make` and `signal.Notify`, before the goroutine runs.
abbrev pub init : State
init = record {
  place = receiving;
  taken = false;
  closed = false;
  cancelled = false;
  panicked = false;
  signals = 0;
}

-- A signal is sent to `done`.
unfoldable pub deliver : State → State
deliver s = elim s.closed [
  | true ↦ record s { panicked = true; signals = suc s.signals }
  | false ↦ record s { taken = true; signals = suc s.signals }
]

-- The actions of the goroutine.
pub data Act (s t : State) : Type 0 where
  receive :
      s.place ≡ receiving
      → s.taken ≡ true
      → t ≡ record s { place = cancelling; taken = false }
      → Act s t
  cancel : s.place ≡ cancelling → t ≡ record s { place = closing; cancelled = true } → Act s t
  close : s.place ≡ closing → t ≡ record s { place = ended; closed = true } → Act s t

pub data Step (s t : State) : Type 0 where
  act : s.panicked ≡ false → Act s t → Step s t
  signal : s.panicked ≡ false → t ≡ deliver s → Step s t

pub data Reach (s : State) : State → Type 0 where
  here : Reach s s
  next : {t u : State} → Reach s t → Step t u → Reach s u

-- What is known at each place of the goroutine.
abbrev pub Known : Place → State → Type 0
Known receiving s =
    (s.closed ≡ false)
    × (s.cancelled ≡ false)
    × (s.panicked ≡ false)
    × ((s.taken ≡ true) ⊎ (s.signals ≡ 0))
Known cancelling s =
    (s.closed ≡ false) × (s.cancelled ≡ false) × (s.panicked ≡ false) × (1 ≤ s.signals)
Known closing s = (s.closed ≡ false) × (s.cancelled ≡ true) × (s.panicked ≡ false) × (1 ≤ s.signals)
Known ended s =
    (s.closed ≡ true) × (s.cancelled ≡ true) × (1 ≤ s.signals) × (s.panicked ≡ true → 2 ≤ s.signals)

pub record Inv (s : State) : Type 0 where
  pub known : Known s.place s
  pub taken_signal : s.taken ≡ true → 1 ≤ s.signals

Known-deliver : (s : State) (p : Place) → Known p s → Known p (deliver s)
unfolding deliver
Known-deliver s receiving k = rw (k.0) (ground arith)
Known-deliver s cancelling k = rw (k.0) (ground arith)
Known-deliver s closing k = rw (k.0) (ground arith)
Known-deliver s ended k = rw (k.0) (ground arith)

place-deliver : (s : State) → (deliver s).place ≡ s.place
unfolding deliver
place-deliver s = elim (Bool-cases s.closed) [ inl shut ↦ rw shut refl | inr still ↦ rw still refl ]

signals-deliver : (s : State) → 1 ≤ (deliver s).signals
unfolding deliver
signals-deliver s = elim (Bool-cases s.closed) [
  | inl shut ↦ rw shut (ground arith)
  | inr still ↦ rw still (ground arith)
]

Step-Inv : {s t : State} → Step s t → Inv s → Inv t
unfolding deliver
Step-Inv (act live (receive l d e)) v = rw e (ground (arith, v.taken_signal))
Step-Inv (act live (cancel l e)) v = rw e (ground arith)
Step-Inv (act live (close l e)) v = rw e (ground arith)
Step-Inv {s} (signal live e) v = rw e (record {
  known =
      subst (λ p. Known p (deliver s)) (sym (place-deliver s)) (Known-deliver s s.place v.known);
  taken_signal = λ h. signals-deliver s;
})

Reach-Inv : {s : State} → Reach init s → Inv s
Reach-Inv here = record { known = (refl, refl, refl, inr refl); taken_signal = λ h. cc }
Reach-Inv (next r st) = Step-Inv st (Reach-Inv r)

-- The program panics only once a second signal has arrived, and the context is done only once a
-- first has.
pub Reach-signals :
    {s : State}
    → Reach init s
    → (s.panicked ≡ true → 2 ≤ s.signals) × (s.cancelled ≡ true → 1 ≤ s.signals)
Reach-signals {s} r = at s.place (Reach-Inv r).known
  where
    at :
        (p : Place)
        → Known p s
        → (s.panicked ≡ true → 2 ≤ s.signals) × (s.cancelled ≡ true → 1 ≤ s.signals)
    at receiving k = ground arith
    at cancelling k = ground arith
    at closing k = ground arith
    at ended k = ground arith

-- From here every step is a signal, and a panic.
abbrev pub Doomed : State → State → Type 0
Doomed s t =
    Reach s t
    × (t.cancelled ≡ true)
    × (t.panicked ≡ false)
    × (t.signals ≡ s.signals)
    × ((u : State) → Step t u → u.panicked ≡ true)

ended_Doomed :
    (s t : State)
    → Reach s t
    → t.place ≡ ended
    → t.closed ≡ true
    → t.cancelled ≡ true
    → t.panicked ≡ false
    → t.signals ≡ s.signals
    → Doomed s t
unfolding deliver
ended_Doomed s t r l c d live n = (r, d, live, n, last)
  where
    last : (u : State) → Step t u → u.panicked ≡ true
    last u (act a (receive h x e)) = absurd (ground arith)
    last u (act a (cancel h e)) = absurd (ground arith)
    last u (act a (close h e)) = absurd (ground arith)
    last u (signal a e) = rw (e, c) refl

place_Doomed :
    (s : State) (p : Place)
    → s.place ≡ p
    → Known p s
    → s.panicked ≡ false
    → 1 ≤ s.signals
    → (t : State) × Doomed s t
place_Doomed s receiving l k live n = elim k.3 [
  | inl full ↦ (
    _,
    ended_Doomed s _
        (next (next (next here (act live (receive l full refl))) (act live (cancel refl refl)))
          (act live (close refl refl)))
        refl refl refl live refl,
  )
  | inr none ↦ absurd (omega (arith, n, none))
]
place_Doomed s cancelling l k live n = (
  _,
  ended_Doomed s _ (next (next here (act live (cancel l refl))) (act live (close refl refl))) refl
      refl refl live refl,
)
place_Doomed s closing l k live n =
    (_, ended_Doomed s _ (next here (act live (close l refl))) refl refl k.1 live refl)
place_Doomed s ended l k live n = (s, ended_Doomed s s here l k.0 k.1 live refl)

-- From any point at which a signal has arrived and the program runs, the goroutine can by itself, with
-- no other signal, come to a point at which the context is done, and from which every step is another
-- signal that makes the program panic.
pub second_signal_panics :
    {s : State} → Reach init s → s.panicked ≡ false → 1 ≤ s.signals → (t : State) × Doomed s t
second_signal_panics {s} r live n = place_Doomed s s.place refl (Reach-Inv r).known live n
