-- ===== src/Engine/Workers/Folders.antt =====
-- internal/engine/executor.go: the identifier by which `Start` asks for the folder of its worker, and
-- the folders that the workers of one pool work in.
use mathlib.Core.List.{append_cancel_left}
use gremlins.Prelude.{
  ℕ, pos, zero, suc, ◌≤◌, ◌<◌, ◌≡◌, ◌≢◌, refl, sym, ap, ◌∙◌, List, [], ◌∷◌, ◌++◌, some, Text, codes,
  arith,
}
use gremlins.Engine.Executor.{Format}
use gremlins.Engine.Workdir.{Fs, new_cached_dealer}
use gremlins.Engine.Workdir.Laws.{FsLaws}
use gremlins.Engine.Workdir.Shared.{works_in, System, Reach, init}
use gremlins.Engine.Workdir.Shared.Apart.{work_apart}
use gremlins.Engine.Workers
use gremlins.Engine.Workers.{Worker, new_worker, workers_from, At}
use gremlins.Engine.Workers.Invariant.{identities, identities-Reach}

-- `workerName` of `Start`.
unfoldable pub worker_name : Format → Worker → Text
worker_name fmt w = w.name ++ (codes "-" ++ fmt.decimal (pos w.id))

worker_name_apart :
    (fmt : Format) (name : Text) (i k : ℕ)
    → ((n m : ℕ) → fmt.decimal (pos n) ≡ fmt.decimal (pos m) → n ≡ m)
    → worker_name fmt (new_worker i name) ≡ worker_name fmt (new_worker k name)
    → i ≡ k
unfolding worker_name new_worker
worker_name_apart fmt name i k apart e = apart i k (
    append_cancel_left (codes "-") (fmt.decimal (pos i)) (fmt.decimal (pos k)) (
      append_cancel_left name (codes "-" ++ fmt.decimal (pos i)) (codes "-" ++ fmt.decimal (pos k))
        e))

same_tail : (x y : Worker) (xs ys : List Worker) → x ∷ xs ≡ y ∷ ys → xs ≡ ys
same_tail x y xs ys e = cc

same_id : (x y : Worker) (xs ys : List Worker) → x ∷ xs ≡ y ∷ ys → x.id ≡ y.id
same_id x y xs ys e = cc

id_at_least :
    (i : ℕ) (name : Text) (n : ℕ) (before : List Worker) (v : Worker) (after : List Worker)
    → workers_from i name n ≡ before ++ v ∷ after
    → i ≤ v.id
unfolding workers_from new_worker
id_at_least i name zero [] v after e = absurd (cc)
id_at_least i name zero (u ∷ before) v after e = absurd (cc)
id_at_least i name (suc n) [] v after e =
    omega (arith, same_id (new_worker i name) v (workers_from (suc i) name n) after e)
id_at_least i name (suc n) (u ∷ before) v after e = omega (
  arith,
  id_at_least (suc i) name n before v after
      (same_tail (new_worker i name) u (workers_from (suc i) name n) (before ++ v ∷ after) e),
)

-- The numbers of the workers of a pool grow along its list.
ids_grow :
    (i : ℕ) (name : Text) (n : ℕ) (before : List Worker) (w : Worker) (between : List Worker)
    (v : Worker) (after : List Worker)
    → workers_from i name n ≡ before ++ w ∷ (between ++ v ∷ after)
    → w.id < v.id
unfolding workers_from new_worker
ids_grow i name zero [] w between v after e = absurd (cc)
ids_grow i name zero (u ∷ before) w between v after e = absurd (cc)
ids_grow i name (suc n) [] w between v after e =
    let rest = workers_from (suc i) name n in
    omega (
      arith,
      same_id (new_worker i name) w rest (between ++ v ∷ after) e,
      id_at_least (suc i) name n between v after
          (same_tail (new_worker i name) w rest (between ++ v ∷ after) e),
    )
ids_grow i name (suc n) (u ∷ before) w between v after e =
    ids_grow (suc i) name n before w between v after (
      same_tail (new_worker i name) u (workers_from (suc i) name n)
        (before ++ w ∷ (between ++ v ∷ after)) e)

identities-append :
    {J : Type 0} (xs ys : List (Worker × At J))
    → identities (xs ++ ys) ≡ identities xs ++ identities ys
identities-append [] ys = refl
identities-append ((w, x) ∷ xs) ys = ap (◌∷◌ w) (identities-append xs ys)

-- The workers of one pool ask one new dealer for their folders, each under its name and number, and
-- distinct numbers have distinct texts. Whatever the order of their actions, two workers of the pool
-- never work in the same folder at once.
pub folders_apart :
    (fs : Fs) (laws : FsLaws fs) (fmt : Format) {J : Type 0} (name : Text) (n : ℕ) (stream : List J)
    (work_dir src_dir : Text) (d : fs.Disk) {s : Workers.System J} {t : System fs laws}
    → ((n m : ℕ) → fmt.decimal (pos n) ≡ fmt.decimal (pos m) → n ≡ m)
    → Workers.Reach (Workers.init name n stream) s
    → Reach fs laws
        (λ i. worker_name fmt (new_worker i name))
        (init fs laws (new_cached_dealer work_dir src_dir) d)
        t
    → (before between after : List (Worker × At J)) (w v : Worker) (x y : At J) (p q : Text)
    → s.workers ≡ before ++ (w, x) ∷ (between ++ (v, y) ∷ after)
    → works_in (t.at w.id) ≡ some p
    → works_in (t.at v.id) ≡ some q
    → p ≢ q
folders_apart fs laws fmt name n stream work_dir src_dir d {s} {t} apart r r' before between after w
      v x y p q e h g same =
    let listed : workers_from 0 name n
        ≡ identities before ++ w ∷ (identities between ++ v ∷ identities after) =
      sym (identities-Reach name n stream r)
      ∙ ap identities e
      ∙ identities-append before ((w, x) ∷ (between ++ (v, y) ∷ after))
      ∙ ap (λ (l : List Worker). identities before ++ w ∷ l)
          (identities-append between ((v, y) ∷ after)) in
    let grows =
      ids_grow 0 name n (identities before) w (identities between) v (identities after) listed in
    let (one, _) =
      work_apart fs laws (λ i. worker_name fmt (new_worker i name)) work_dir src_dir d
        (λ k l. worker_name_apart fmt name k l apart) r' w.id v.id q (h ∙ ap some same) g in
    omega arith
