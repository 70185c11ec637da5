-- ===== src/Engine/Workers/None.antt =====
-- A pool without workers.
use gremlins.Prelude.{
  ℕ, suc, length, ◌+◌, ◌<◌, ◌≡◌, ◌≢◌, ◌∙◌, refl, sym, ap, Bool, false, negsuc, List, [], ◌∷◌, ◌++◌,
  Text, arith,
}
use gremlins.Engine.Pool.{Feeder, waiting, stopping, ended, holding, size, workers}
use gremlins.Engine.Pool.Invariant.{feeder_wg}
use gremlins.Engine.Workers.Invariant.{holds_one}
use gremlins.Engine.Workers.{
  Worker, At, System, start_workers, workers_from, init, Step, take, append, exhaust, abort, shut,
  receive, deliver, fail, done, find_closed, tell, stopped, close, cancel, Reach, here, next,
}

-- Nothing is done, and the wait group counts what is left; `k` is the number of mutants.
record Idle {J : Type 0} (k : ℕ) (s : System J) : Type 0 where
  nobody : s.workers ≡ []
  no_stop : s.feeder ≢ stopping
  wg_exact : s.wg ≡ feeder_wg s.feeder + length s.queue
  all_left : length s.stream + holds_one s.feeder + length s.queue ≡ k
  ends : s.feeder ≡ ended → s.stream ≡ []
  open_ : s.closed ≡ false
  no_results : s.results ≡ []

not_there :
    {J : Type 0} (ws b a : List (Worker × At J)) (x : Worker × At J) → ws ≡ [] → ¬ (ws ≡ b ++ x ∷ a)
not_there ws [] a x e h = cc
not_there ws (y ∷ b) a x e h = cc

no_end :
    {J : Type 0} (k : ℕ) (s : System J) (feeder : Feeder J) (stream : List J)
    → 0 < k
    → Idle k s
    → s.wg ≡ 0
    → s.feeder ≡ feeder
    → s.stream ≡ stream
    → ⊥
no_end k s (holding j) stream p u w f e = ground (arith, u.wg_exact)
no_end k s waiting stream p u w f e = ground (arith, u.wg_exact)
no_end k s stopping stream p u w f e = u.no_stop f
no_end k s ended stream p u w f e = ground (arith, u.wg_exact, u.ends, u.all_left)

same_cancelled :
    {J : Type 0} (s t u : System J)
    → t ≡ u
    → u.cancelled ≡ s.cancelled
    → t.cancelled ≡ false
    → s.cancelled ≡ false
same_cancelled s t u e c d = sym c ∙ ap (λ (x : System _). x.cancelled) (sym e) ∙ d

Idle-Step :
    {J : Type 0} (k : ℕ) {s t : System J}
    → 0 < k
    → Step s t
    → (s.cancelled ≡ false → Idle k s)
    → t.cancelled ≡ false
    → Idle k t
Idle-Step k {s} p (take j js f st c e) v d = let u = v c in rw e (ground arith)
Idle-Step k {s} p (append j f q e) v d =
    let u = v (same_cancelled s _ _ e refl d) in rw e (ground arith)
Idle-Step k {s} p (exhaust f st e) v d =
    let u = v (same_cancelled s _ _ e refl d) in rw e (ground arith)
Idle-Step k {s} p (abort j js f st c e) v d =
    let off : s.cancelled ≡ false = same_cancelled s _ _ e refl d in absurd (cc)
Idle-Step k {s} p (shut f q e) v d = absurd ((v (same_cancelled s _ _ e refl d)).no_stop f)
Idle-Step k {s} p (receive j js w b a q h e) v d =
    absurd (not_there s.workers b a _ (v (same_cancelled s _ _ e refl d)).nobody h)
Idle-Step k {s} p (deliver j w b a h c e) v d =
    absurd (not_there s.workers b a _ (v (same_cancelled s _ _ e refl d)).nobody h)
Idle-Step k {s} p (fail j w b a h e) v d =
    absurd (not_there s.workers b a _ (v (same_cancelled s _ _ e refl d)).nobody h)
Idle-Step k {s} p (done w b a h e) v d =
    absurd (not_there s.workers b a _ (v (same_cancelled s _ _ e refl d)).nobody h)
Idle-Step k {s} p (find_closed w b a q c h e) v d =
    absurd (not_there s.workers b a _ (v (same_cancelled s _ _ e refl d)).nobody h)
Idle-Step k {s} p (tell w b a c h e) v d =
    absurd (not_there s.workers b a _ (v (same_cancelled s _ _ e refl d)).nobody h)
Idle-Step k {s} p (stopped f c g e) v d = absurd ((v (same_cancelled s _ _ e refl d)).no_stop f)
Idle-Step k {s} p (close w c e) v d =
    let u = v (same_cancelled s _ _ e refl d) in
    absurd (no_end k s s.feeder s.stream p u w refl refl)
Idle-Step k {s} p (cancel c e) v d = absurd (ground arith)

Idle-Reach :
    {J : Type 0} (name : Text) (j : J) (js : List J) {s : System J}
    → Reach (init name 0 (j ∷ js)) s
    → s.cancelled ≡ false
    → Idle (suc (length js)) s
unfolding init start_workers workers_from
Idle-Reach name j js here d = ground arith
Idle-Reach name j js (next r st) d =
    Idle-Step (suc (length js)) (omega arith) st (Idle-Reach name j js r) d

-- A negative number of workers makes none, and with a mutant to test the run then never ends by
-- itself: until a signal comes the output channel is not closed, and nothing is sent to it.
pub negative_workers_hang :
    {J : Type 0} (name : Text) (cpus n : ℕ) (integration : Bool) (j : J) (js : List J)
    {s : System J}
    → Reach (init name (workers (size cpus (negsuc n) integration)) (j ∷ js)) s
    → s.cancelled ≡ false
    → (s.closed ≡ false) × (s.results ≡ [])
unfolding workers size
negative_workers_hang name cpus n integration j js r d =
    let u = Idle-Reach name j js r d in (u.open_, u.no_results)
