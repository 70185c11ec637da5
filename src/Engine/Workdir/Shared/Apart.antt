-- ===== src/Engine/Workdir/Shared/Apart.antt =====
-- The folders that workers get from one cache at the same time.
use gremlins.Prelude.{ℕ, ◌≡◌, refl, ◌∙◌, some, Text}
use gremlins.Prelude.GoMap.{lookup}
use gremlins.Engine.Workdir.{Fs, from_cache, new_cached_dealer}
use gremlins.Engine.Workdir.Laws.{FsLaws, copy_to-keeps}
use gremlins.Engine.Workdir.Shared.{
  Place, works_in, update, Shared, Move, hit, miss, make, make_fails, copy, copy_fails, keep, work,
  again, System, Step, pick, Reach, here, next, init,
}
use gremlins.Engine.Workdir.Shared.Invariant.{Inv, quiet, make-Inv, keep-Inv}

module _ (fs : Fs) (laws : FsLaws fs) where
  open fs use {Disk, mkdir_temp}
  open laws use {exists}

  Move-Inv :
      (idf : ℕ → Text) (m : Shared fs laws) (at : ℕ → Place) (i : ℕ) {x y : Place}
      {m' : Shared fs laws}
      → ((k l : ℕ) → idf k ≡ idf l → k ≡ l)
      → at i ≡ x
      → Move fs laws (idf i) m x m' y
      → Inv fs laws idf m at
      → Inv fs laws idf m' (update at i y)
  Move-Inv idf m at i apart e (hit c) v =
      quiet fs laws idf m m.disk at i _ (λ q h. h) (λ q h. cc) (λ q h. c ∙ h) v
  Move-Inv idf m at i apart e (miss c) v =
      quiet fs laws idf m m.disk at i _ (λ q h. h) (λ q h. cc) (λ q h. cc) v
  Move-Inv idf m at i apart e (make {p} c) v = make-Inv fs laws idf m at i p _ c v
  Move-Inv idf m at i apart e (make_fails c) v =
      quiet fs laws idf m _ at i _ (λ q. laws.mkdir_temp_keeps m.dealer.work_dir q m.disk)
        (λ q h. cc) (λ q h. cc) v
  Move-Inv idf m at i apart e (copy {p} {v = f} c) v =
      quiet fs laws idf m _ at i _ (λ q. copy_to-keeps fs laws m.dealer p q f m.disk) (λ q h. cc)
        (λ q h. cc) v
  Move-Inv idf m at i apart e (copy_fails {p} {v = f} c) v =
      quiet fs laws idf m _ at i _ (λ q. copy_to-keeps fs laws m.dealer p q f m.disk) (λ q h. cc)
        (λ q h. cc) v
  Move-Inv idf m at i apart e (keep {p}) v = keep-Inv fs laws idf m at i p apart (cc) v
  Move-Inv idf m at i apart e (work {p} {d} keeps) v =
      quiet fs laws idf m d at i _ keeps (λ q h. cc) (λ q h. v.given_cached i q (cc)) v
  Move-Inv idf m at i apart e again v =
      quiet fs laws idf m m.disk at i _ (λ q h. h) (λ q h. cc) (λ q h. cc) v

  Step-Inv :
      (idf : ℕ → Text) {s t : System fs laws}
      → ((k l : ℕ) → idf k ≡ idf l → k ≡ l)
      → Step fs laws idf s t
      → Inv fs laws idf s.mem s.at
      → Inv fs laws idf t.mem t.at
  Step-Inv idf {s} apart (pick i mv) v = Move-Inv idf s.mem s.at i apart refl mv v

  init-Inv :
      (idf : ℕ → Text) (work_dir src_dir : Text) (d : Disk)
      → Inv fs laws idf
          (init fs laws (new_cached_dealer work_dir src_dir) d).mem
          (init fs laws (new_cached_dealer work_dir src_dir) d).at
  unfolding new_cached_dealer from_cache lookup
  init-Inv idf work_dir src_dir d = record {
    cached_exist = λ i p h. cc;
    copied_exist = λ i p h. cc;
    cached_apart = λ i k p h. cc;
    copied_apart = λ i k p h. cc;
    not_both = λ i k p h. cc;
    given_cached = λ i p h. cc;
  }

  Reach-Inv :
      (idf : ℕ → Text) (work_dir src_dir : Text) (d : Disk) {s : System fs laws}
      → ((k l : ℕ) → idf k ≡ idf l → k ≡ l)
      → Reach fs laws idf (init fs laws (new_cached_dealer work_dir src_dir) d) s
      → Inv fs laws idf s.mem s.at
  Reach-Inv idf work_dir src_dir d apart here = init-Inv idf work_dir src_dir d
  Reach-Inv idf work_dir src_dir d apart (next r st) =
      Step-Inv idf apart st (Reach-Inv idf work_dir src_dir d apart r)

  -- Workers with different identifiers call `Get` at any time, on a new dealer: whatever the order
  -- of their actions, two that work in the same folder at once are the same worker, and the folder
  -- is there.
  pub work_apart :
      (idf : ℕ → Text) (work_dir src_dir : Text) (d : Disk) {s : System fs laws}
      → ((k l : ℕ) → idf k ≡ idf l → k ≡ l)
      → Reach fs laws idf (init fs laws (new_cached_dealer work_dir src_dir) d) s
      → (i k : ℕ) (p : Text) → works_in (s.at i) ≡ some p
      → works_in (s.at k) ≡ some p
      → (i ≡ k) × exists p s.mem.disk
  work_apart idf work_dir src_dir d apart r i k p h g =
      let v = Reach-Inv idf work_dir src_dir d apart r in
      (
        v.cached_apart i k p (v.given_cached i p h) (v.given_cached k p g),
        v.cached_exist i p (v.given_cached i p h),
      )
