-- ===== src/Engine/Workdir/Shared/Invariant.antt =====
-- What holds of the folders of one cache while workers get them.
use mathlib.Core.Path.{subst}
use gremlins.Prelude.{
  ℕ, ◌≡◌, ◌≢◌, sym, ◌∙◌, ◌⊎◌, inl, inr, List, some, Text, ◌==◌, arith, ==_iff, Bool-cases, text_eq,
  text_eq_iff,
}
use gremlins.Engine.Workdir.{Fs, Visit, from_cache, set_cache}
use gremlins.Engine.Workdir.Laws.{FsLaws, from_cache-set_cache}
use gremlins.Engine.Workdir.Shared.{Place, copying, given, copies_to, works_in, update, Shared}

module _ (fs : Fs) (laws : FsLaws fs) where
  open fs use {Disk, mkdir_temp}
  open laws use {exists}

  pub record Inv (idf : ℕ → Text) (m : Shared fs laws) (at : ℕ → Place) : Type 0 where
    pub cached_exist : (i : ℕ) (p : Text) → from_cache m.dealer (idf i) ≡ some p → exists p m.disk
    pub copied_exist : (i : ℕ) (p : Text) → copies_to (at i) ≡ some p → exists p m.disk
    pub cached_apart :
        (i k : ℕ) (p : Text)
        → from_cache m.dealer (idf i) ≡ some p
        → from_cache m.dealer (idf k) ≡ some p
        → i ≡ k
    pub copied_apart :
        (i k : ℕ) (p : Text) → copies_to (at i) ≡ some p → copies_to (at k) ≡ some p → i ≡ k
    pub not_both :
        (i k : ℕ) (p : Text) → copies_to (at i) ≡ some p → ¬ (from_cache m.dealer (idf k) ≡ some p)
    pub given_cached :
        (i : ℕ) (p : Text) → works_in (at i) ≡ some p → from_cache m.dealer (idf i) ≡ some p

  -- A move that leaves the cache as it is, and gives the worker no new folder to copy to.
  pub quiet :
      (idf : ℕ → Text) (m : Shared fs laws) (d : Disk) (at : ℕ → Place) (i : ℕ) (x : Place)
      → ((q : Text) → exists q m.disk → exists q d)
      → ((p : Text) → copies_to x ≡ some p → copies_to (at i) ≡ some p)
      → ((p : Text) → works_in x ≡ some p → from_cache m.dealer (idf i) ≡ some p)
      → Inv idf m at
      → Inv idf (record m { disk = d }) (update at i x)
  quiet idf m d at i x keeps old cached v = record {
    cached_exist = λ k p h. keeps p (v.cached_exist k p h);
    copied_exist = λ k p h. keeps p (v.copied_exist k p (was k p h));
    cached_apart = v.cached_apart;
    copied_apart = λ k l p h g. v.copied_apart k l p (was k p h) (was l p g);
    not_both = λ k l p h. v.not_both k l p (was k p h);
    given_cached = λ k p h. elim (Bool-cases (i == k)) [
      | inl same ↦ ground (arith, ==_iff i k, cached p, v.given_cached k p)
      | inr other ↦ ground (arith, v.given_cached k p)
    ];
  }
    where
      was : (k : ℕ) (p : Text) → copies_to (update at i x k) ≡ some p → copies_to (at k) ≡ some p
      was k p h = elim (Bool-cases (i == k)) [
        | inl same ↦ ground (arith, ==_iff i k, old p)
        | inr other ↦ ground arith
      ]

  -- A new folder is not one that another worker copies to, or that is in the cache.
  pub make-Inv :
      (idf : ℕ → Text) (m : Shared fs laws) (at : ℕ → Place) (i : ℕ) (p : Text) (vs : List Visit)
      → (mkdir_temp m.dealer.work_dir m.disk).0 ≡ some p
      → Inv idf m at
      → Inv idf
          (record m { disk = (mkdir_temp m.dealer.work_dir m.disk).1 })
          (update at i (copying p vs))
  make-Inv idf m at i p vs e v = record {
    cached_exist = λ k q h. keeps q (v.cached_exist k q h);
    copied_exist = λ k q h. elim (copier k q h) [
      | inl (same, is_new) ↦ rw is_new made
      | inr old ↦ keeps q (v.copied_exist k q old)
    ];
    cached_apart = v.cached_apart;
    copied_apart = λ k l q h g. elim (copier k q h) [
      | inl (same, is_new) ↦ elim (copier l q g) [
        | inl (too, _) ↦ sym same ∙ too
        | inr old ↦ absurd (fresh q is_new (v.copied_exist l q old))
      ]
      | inr old ↦ elim (copier l q g) [
        | inl (too, is_new) ↦ absurd (fresh q is_new (v.copied_exist k q old))
        | inr old' ↦ v.copied_apart k l q old old'
      ]
    ];
    not_both = λ k l q h c. elim (copier k q h) [
      | inl (same, is_new) ↦ fresh q is_new (v.cached_exist l q c)
      | inr old ↦ v.not_both k l q old c
    ];
    given_cached = λ k q h. elim (Bool-cases (i == k)) [
      | inl same ↦ ground arith
      | inr other ↦ ground (arith, v.given_cached k q)
    ];
  }
    where
      keeps : (q : Text) → exists q m.disk → exists q (mkdir_temp m.dealer.work_dir m.disk).1
      keeps q = laws.mkdir_temp_keeps m.dealer.work_dir q m.disk

      made : exists p (mkdir_temp m.dealer.work_dir m.disk).1
      made = laws.mkdir_temp_exists m.dealer.work_dir p m.disk e

      fresh : (q : Text) → q ≡ p → ¬ exists q m.disk
      fresh q is_new =
          subst (λ (r : Text). ¬ exists r m.disk) (sym is_new)
            (laws.mkdir_temp_new m.dealer.work_dir p m.disk e)

      copier :
          (k : ℕ) (q : Text)
          → copies_to (update at i (copying p vs) k) ≡ some q
          → ((i ≡ k) × (q ≡ p)) ⊎ (copies_to (at k) ≡ some q)
      copier k q h = elim (Bool-cases (i == k)) [
        | inl same ↦ inl (ground (arith, ==_iff i k))
        | inr other ↦ inr (ground arith)
      ]

  -- The folder goes from the worker that copied to it to the cache, under that worker's identifier.
  pub keep-Inv :
      (idf : ℕ → Text) (m : Shared fs laws) (at : ℕ → Place) (i : ℕ) (p : Text)
      → ((k l : ℕ) → idf k ≡ idf l → k ≡ l)
      → copies_to (at i) ≡ some p
      → Inv idf m at
      → Inv idf (record m { dealer = set_cache m.dealer (idf i) p }) (update at i (given p))
  keep-Inv idf m at i p apart e v = record {
    cached_exist = λ k q h. elim (cached k q h) [
      | inl (same, is_new) ↦ rw is_new (v.copied_exist i p e)
      | inr old ↦ v.cached_exist k q old
    ];
    copied_exist = λ k q h. v.copied_exist k q (copier k q h).1;
    cached_apart = λ k l q h g. elim (cached k q h) [
      | inl (same, is_new) ↦ elim (cached l q g) [
        | inl (too, _) ↦ sym same ∙ too
        | inr old ↦ absurd (v.not_both i l q (rw is_new e) old)
      ]
      | inr old ↦ elim (cached l q g) [
        | inl (too, is_new) ↦ absurd (v.not_both i k q (rw is_new e) old)
        | inr old' ↦ v.cached_apart k l q old old'
      ]
    ];
    copied_apart = λ k l q h g. v.copied_apart k l q (copier k q h).1 (copier l q g).1;
    not_both = λ k l q h c. elim (cached l q c) [
      | inl (same, is_new) ↦ (copier k q h).0 (v.copied_apart i k q (rw is_new e) (copier k q h).1)
      | inr old ↦ v.not_both k l q (copier k q h).1 old
    ];
    given_cached = λ k q h. ground (
      arith,
      from_cache-set_cache fs m.dealer (idf i) (idf k) p,
      text_eq_iff (idf i) (idf k),
      ==_iff i k,
      apart i k,
      v.given_cached k q,
    );
  }
    where
      cached :
          (k : ℕ) (q : Text)
          → from_cache (set_cache m.dealer (idf i) p) (idf k) ≡ some q
          → ((i ≡ k) × (q ≡ p)) ⊎ (from_cache m.dealer (idf k) ≡ some q)
      cached k q h = elim (Bool-cases (text_eq (idf i) (idf k))) [
        | inl same ↦ inl (
          apart i k ((text_eq_iff (idf i) (idf k)).0 same),
          ground (arith, from_cache-set_cache fs m.dealer (idf i) (idf k) p),
        )
        | inr other ↦ inr (ground (arith, from_cache-set_cache fs m.dealer (idf i) (idf k) p))
      ]

      copier :
          (k : ℕ) (q : Text)
          → copies_to (update at i (given p) k) ≡ some q
          → (i ≢ k) × (copies_to (at k) ≡ some q)
      copier k q h = ground (arith, ==_iff i k)
