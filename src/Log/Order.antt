-- ===== src/Log/Order.antt =====
-- What the two writers have got after a sequence of calls.
use mathlib.Core.List.{append_assoc, append-nil}
use gremlins.Prelude.{
  ℕ, ◌≡◌, ◌≢◌, refl, sym, ap, ◌∙◌, Bool, true, false, List, [], ◌∷◌, ◌++◌, Option, none, some, Text,
  codes, if◌then◌else◌, arith,
}
use gremlins.Log.{Logger, State, init_log, Call, calls_init, calls_info, calls_error, call, calls}

-- The messages of the calls, by their kind, in order.
abbrev infos : List Call → List Text
infos [] = []
infos (calls_info message ∷ cs) = message ∷ infos cs
infos (calls_init _ _ ∷ cs) = infos cs
infos (calls_error _ ∷ cs) = infos cs

abbrev errors : Text → List Call → List Text
errors prefix [] = []
errors prefix (calls_info _ ∷ cs) = errors prefix cs
errors prefix (calls_init _ _ ∷ cs) = errors prefix cs
errors prefix (calls_error message ∷ cs) = (prefix ++ codes ": " ++ message) ∷ errors prefix cs

-- What a run shows of its messages.
abbrev shown : Bool → List Call → List Text
shown silent cs = if silent then [] else infos cs

shown_nil : (silent : Bool) (xs : List Text) → xs ++ shown silent [] ≡ xs
shown_nil true xs = append-nil xs
shown_nil false xs = append-nil xs

shown_init :
    (silent : Bool) (o o' : Option ℕ) (xs : List Text)
    → xs ++ shown silent (calls_init o o' ∷ []) ≡ xs
shown_init true o o' xs = append-nil xs
shown_init false o o' xs = append-nil xs

-- A later `Init` changes nothing.
init_again : (o o' : Option ℕ) (s : State) (l : Logger) → s.instance_ ≡ some l → init_log o o' s ≡ s
unfolding init_log
init_again none o' s l e = refl
init_again (some o) none s l e = refl
init_again (some o) (some o') s l e = ground arith

-- One call, with a logger.
call_lem :
    (silent : Bool) (prefix : Text) (c : Call) (l : Logger) (s : State)
    → l.out ≢ l.e_out
    → s.instance_ ≡ some l
    → let t = call silent prefix c s in
      (t.instance_ ≡ some l)
      × (t.texts l.out ≡ s.texts l.out ++ shown silent (c ∷ []))
      × (t.texts l.e_out ≡ s.texts l.e_out ++ errors prefix (c ∷ []))
      × ((w : ℕ) → w ≢ l.out → w ≢ l.e_out → t.texts w ≡ s.texts w)
unfolding call
call_lem silent prefix (calls_init o o') l s n e =
    rw (init_again o o' s l e)
      (e, sym (shown_init silent o o' (s.texts l.out)), sym (append-nil _), λ w a b. refl)
call_lem true prefix (calls_info m) l s n e =
    ground (arith, append-nil (s.texts l.out), append-nil (s.texts l.e_out))
call_lem false prefix (calls_info m) l s n e = ground (arith, append-nil (s.texts l.e_out))
call_lem true prefix (calls_error m) l s n e = ground (arith, append-nil (s.texts l.out))
call_lem false prefix (calls_error m) l s n e = ground (arith, append-nil (s.texts l.out))

shown_cons :
    (silent : Bool) (c : Call) (cs : List Call)
    → shown silent (c ∷ []) ++ shown silent cs ≡ shown silent (c ∷ cs)
shown_cons true c cs = refl
shown_cons false (calls_init _ _) cs = refl
shown_cons false (calls_info _) cs = refl
shown_cons false (calls_error _) cs = refl

errors_cons :
    (prefix : Text) (c : Call) (cs : List Call)
    → errors prefix (c ∷ []) ++ errors prefix cs ≡ errors prefix (c ∷ cs)
errors_cons prefix (calls_init _ _) cs = refl
errors_cons prefix (calls_info _) cs = refl
errors_cons prefix (calls_error _) cs = refl

-- What the writers have got after some calls, with a logger.
abbrev Logged : Bool → Text → List Call → Logger → State → Type 0
Logged silent prefix cs l s =
    let t = calls silent prefix cs s in
    (t.instance_ ≡ some l)
    × (t.texts l.out ≡ s.texts l.out ++ shown silent cs)
    × (t.texts l.e_out ≡ s.texts l.e_out ++ errors prefix cs)
    × ((w : ℕ) → w ≢ l.out → w ≢ l.e_out → t.texts w ≡ s.texts w)

-- Once there is a logger with two different writers, whatever is called after, a later `Init`
-- included, the first writer gets the messages of information in order, and none in a silent run;
-- the second gets the errors in order, silent or not; and no other writer gets anything.
calls_lem :
    (silent : Bool) (prefix : Text) (cs : List Call) (l : Logger) (s : State)
    → l.out ≢ l.e_out
    → s.instance_ ≡ some l
    → Logged silent prefix cs l s
unfolding calls
calls_lem silent prefix [] l s n e =
    (e, sym (shown_nil silent (s.texts l.out)), sym (append-nil _), λ w a b. refl)
calls_lem silent prefix (c ∷ cs) l s n e =
    let (e₁, o₁, r₁, k₁) = call_lem silent prefix c l s n e in
    let (e₂, o₂, r₂, k₂) = calls_lem silent prefix cs l (call silent prefix c s) n e₁ in
    (
      e₂,
      o₂
          ∙ ap (λ (x : List Text). x ++ shown silent cs) o₁
          ∙ append_assoc (s.texts l.out) (shown silent (c ∷ [])) (shown silent cs)
          ∙ ap (◌++◌ (s.texts l.out)) (shown_cons silent c cs),
      r₂
          ∙ ap (λ (x : List Text). x ++ errors prefix cs) r₁
          ∙ append_assoc (s.texts l.e_out) (errors prefix (c ∷ [])) (errors prefix cs)
          ∙ ap (◌++◌ (s.texts l.e_out)) (errors_cons prefix c cs),
      λ w a b. k₂ w a b ∙ k₁ w a b,
    )
