-- ===== src/Engine/Workdir/Shared.antt =====
-- internal/engine/workdir/workdir.go: `Get` by several workers at once on one cache. Workers are
-- natural numbers, and `idf` gives the identifier of each. One constructor of `Move` is one action of
-- one worker: a look into the cache or a write to it under the mutex, or one call of the file system.
pub mod Invariant
pub mod Apart
use mathlib.Core.Path.{subst}
use gremlins.Prelude.{
  ℕ, ◌≡◌, ◌≢◌, refl, sym, ap, ◌∙◌, ◌⊎◌, inl, inr, Bool, true, false, List, [], ◌∷◌, Option, none,
  some, Text, ◌==◌, if◌then◌else◌, arith, ==_iff, Bool-cases, text_eq, text_eq_iff,
}
use gremlins.Engine.Workdir.{Fs, Visit, CachedDealer, from_cache, set_cache, copy_to}
use gremlins.Engine.Workdir.Laws.{FsLaws, from_cache-set_cache, copy_to-keeps}

-- Where a worker is: outside of `Get`, after a miss in the cache, copying the tree to its new folder
-- with the files still to visit, after an error, or at work in the folder that `Get` gave it.
pub data Place : Type 0 where
  outside missed failed : Place
  copying : Text → List Visit → Place
  given : Text → Place

-- The folder that a worker copies to, and the one that it was given.
abbrev pub copies_to : Place → Option Text
copies_to (copying p vs) = some p
copies_to _ = none

abbrev pub works_in : Place → Option Text
works_in (given p) = some p
works_in _ = none

abbrev pub update : (ℕ → Place) → ℕ → Place → ℕ → Place
update f i a = λ k. if i == k then a else f k

module _ (fs : Fs) (laws : FsLaws fs) where
  open fs use {Disk, mkdir_temp, walk}
  open laws use {exists}

  pub record Shared : Type 0 where
    pub dealer : CachedDealer
    pub disk : Disk

  pub data Move (idf : Text) (m : Shared) : Place → Shared → Place → Type 0 where
    hit : {p : Text} → from_cache m.dealer idf ≡ some p → Move idf m outside m (given p)
    miss : from_cache m.dealer idf ≡ none → Move idf m outside m missed
    make :
        {p : Text}
        → (mkdir_temp m.dealer.work_dir m.disk).0 ≡ some p
        → Move idf m missed
            (record m { disk = (mkdir_temp m.dealer.work_dir m.disk).1 })
            (copying p (walk m.dealer.src_dir (mkdir_temp m.dealer.work_dir m.disk).1))
    make_fails :
        (mkdir_temp m.dealer.work_dir m.disk).0 ≡ none
        → Move idf m missed (record m { disk = (mkdir_temp m.dealer.work_dir m.disk).1 }) failed
    copy :
        {p : Text} {v : Visit} {vs : List Visit}
        → (copy_to fs m.dealer p v m.disk).0 ≡ true
        → Move idf m
            (copying p (v ∷ vs))
            (record m { disk = (copy_to fs m.dealer p v m.disk).1 })
            (copying p vs)
    copy_fails :
        {p : Text} {v : Visit} {vs : List Visit}
        → (copy_to fs m.dealer p v m.disk).0 ≡ false
        → Move idf m
            (copying p (v ∷ vs))
            (record m { disk = (copy_to fs m.dealer p v m.disk).1 })
            failed
    keep :
        {p : Text}
        → Move idf m (copying p []) (record m { dealer = set_cache m.dealer idf p }) (given p)
    -- The worker changes the disk, and removes no folder.
    work :
        {p : Text} {d : Disk}
        → ((q : Text) → exists q m.disk → exists q d)
        → Move idf m (given p) (record m { disk = d }) (given p)
    -- The worker takes its next executor.
    again : {p : Text} → Move idf m (given p) m outside

  pub record System : Type 0 where
    pub mem : Shared
    pub at : ℕ → Place

  pub data Step (idf : ℕ → Text) (s : System) : System → Type 0 where
    pick :
        (i : ℕ) {m : Shared} {p : Place}
        → Move (idf i) s.mem (s.at i) m p
        → Step idf s (record { mem = m; at = update s.at i p })

  pub data Reach (idf : ℕ → Text) (s : System) : System → Type 0 where
    here : Reach idf s s
    next : {t u : System} → Reach idf s t → Step idf t u → Reach idf s u

  -- Before any worker calls `Get`.
  abbrev pub init : CachedDealer → Disk → System
  init cd d = record { mem = record { dealer = cd; disk = d }; at = λ i. outside }
