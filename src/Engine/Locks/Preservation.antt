-- ===== src/Engine/Locks/Preservation.antt =====
-- Every move of a worker keeps what the interleavings have in common, one part at a time.
use mathlib.Core.Path.{subst}
use gremlins.Prelude.{
  ℕ, ◌≡◌, ◌<◌, ◌≢◌, ◌⊎◌, inl, inr, refl, ap, ◌∙◌, true, some, ◌==◌, arith, Bool-cases, ==_iff,
}
use gremlins.Engine.Node.{Store}
use gremlins.Engine.Locks.{
  update, Shared, Pc, Move, hit, lock, mutate, write_fails, restore, unlock,
}
use gremlins.Engine.Locks.Invariant.{
  owns, Known, DirtyOn, IsDirty, Inv, guard, DirtyOn-owns, trees_after, restored, IsDirty-other,
}

module _ {m : Shared} {pc : ℕ → Pc} {b : ℕ → Store} (v : Inv m pc b) (i : ℕ) where
  Move-below :
      {p p' : Pc} {m' : Shared} → Move m p m' p' → (f l : ℕ) → m'.locks f ≡ some l → l < m'.made
  Move-below (hit g) f l e = ground (arith, v.below f l)
  Move-below mv f l e = ground (arith, v.below f l)

  Move-apart :
      {p p' : Pc} {m' : Shared}
      → Move m p m' p'
      → (f g l : ℕ) → m'.locks f ≡ some l
      → m'.locks g ≡ some l
      → f ≡ g
  Move-apart (hit h) f g l d e = ground (arith, v.apart f g l)
  Move-apart mv f g l d e = ground (arith, v.apart f g l, v.below f l, v.below g l)

  Move-Known :
      {p p' : Pc} {m' : Shared} → Move m p m' p' → Known m p → (k : ℕ) → Known m' (update pc i p' k)
  Move-Known (hit g) o k = ground (arith, v.known k)
  Move-Known mv o k = ground (arith, guard mv, v.known k)

  Move-is_held :
      {p p' : Pc} {m' : Shared}
      → Move m p m' p'
      → pc i ≡ p
      → Known m p
      → (k l : ℕ) → owns (update pc i p' k) ≡ some l
      → m'.held l ≡ true
  Move-is_held (hit g) e o k l h = ground (arith, v.is_held k l)
  Move-is_held unlock e o k l h = ground (arith, v.is_held k l, v.alone i k l)
  Move-is_held mv e o k l h = ground (arith, guard mv, v.is_held k l, v.is_held i l)

  Move-alone :
      {p p' : Pc} {m' : Shared}
      → Move m p m' p'
      → pc i ≡ p
      → (k k' l : ℕ) → owns (update pc i p' k) ≡ some l
      → owns (update pc i p' k') ≡ some l
      → k ≡ k'
  Move-alone (hit g) e k k' l h h' = ground (arith, v.alone k k' l)
  Move-alone (lock g) e k k' l h h' =
      ground (arith, g, v.alone k k' l, v.is_held k l, v.is_held k' l)
  Move-alone mv e k k' l h h' =
      ground (arith, guard mv, v.alone k k' l, v.alone i k l, v.alone i k' l)

  Move-owner :
      {p p' : Pc} {m' : Shared}
      → Move m p m' p'
      → pc i ≡ p
      → Known m p
      → (l : ℕ) → m'.held l ≡ true
      → (k : ℕ) × (owns (update pc i p' k) ≡ some l)
  Move-owner (hit g) e o l h = let (k, own) = v.owner l h in (k, ground arith)
  Move-owner (lock {l = l₀} g) e o l h = elim (Bool-cases (l₀ == l)) [
    | inl same ↦ (i, ground arith)
    | inr other ↦ let (k, own) = v.owner l (ground arith) in (k, ground arith)
  ]
  Move-owner unlock e o l h = let (k, own) = v.owner l (ground arith) in (k, ground arith)
  Move-owner mv e o l h = let (k, own) = v.owner l h in (k, ground arith)

  -- Nobody else has a mutation in the tree of a file whose mutex a worker has.
  alone_dirty :
      {p : Pc} (f l : ℕ)
      → pc i ≡ p
      → owns p ≡ some l
      → m.locks f ≡ some l
      → (k : ℕ) → i ≢ k
      → ¬ DirtyOn f (pc k)
  alone_dirty f l e o q k n d =
      n (v.alone i k l (ap owns e ∙ o) (DirtyOn-owns m (pc k) f l (v.known k) d q))

  -- Nor has the worker itself, before it mutates: the tree is what it is between applications.
  untouched :
      {p : Pc} (f l : ℕ)
      → pc i ≡ p
      → owns p ≡ some l
      → m.locks f ≡ some l
      → ¬ DirtyOn f p
      → m.trees f ≡ b f
  untouched f l e o q n = elim (v.clean f) [
    | inl same ↦ same
    | inr (k, d) ↦ elim (Bool-cases (i == k)) [
      | inl here ↦ absurd (n (subst (DirtyOn f) e (rw ((==_iff i k).0 here) d)))
      | inr other ↦ absurd (alone_dirty f l e o q k (ground arith) d)
    ]
  ]

  Move-IsDirty :
      {p p' : Pc} {m' : Shared} (mv : Move m p m' p')
      → pc i ≡ p
      → Known m p
      → IsDirty m b p
      → (k : ℕ) → IsDirty m' (trees_after mv b) (update pc i p' k)
  Move-IsDirty (hit g) e o d k = ground (arith, v.dirty k)
  Move-IsDirty {m' = m'} (mutate {j} {l} {l'}) e o d k = elim (Bool-cases (i == k)) [
    | inl here ↦ rw here (ground (arith, untouched j.file l e refl o.0 (λ x. x)))
    | inr other ↦ rw other (
        IsDirty-other m m' b b (pc k) j.file (alone_dirty j.file l e refl o.0 k (ground arith))
          (λ g n. ground arith) (λ g n. refl) (v.dirty k))
  ]
  Move-IsDirty {m' = m'} (write_fails {j} {l}) e o d k = elim (Bool-cases (i == k)) [
    | inl here ↦ rw here tt
    | inr other ↦ rw other (
        IsDirty-other m m' b _ (pc k) j.file (alone_dirty j.file l e refl o.0 k (ground arith))
          (λ g n. refl) (λ g n. ground arith) (v.dirty k))
  ]
  Move-IsDirty {m' = m'} (restore {j} {l}) e o d k = elim (Bool-cases (i == k)) [
    | inl here ↦ rw here tt
    | inr other ↦ rw other (
        IsDirty-other m m' b b (pc k) j.file (alone_dirty j.file l e refl o.0 k (ground arith))
          (λ g n. ground arith) (λ g n. refl) (v.dirty k))
  ]
  Move-IsDirty mv e o d k = ground (arith, v.dirty k)

  Move-clean :
      {p p' : Pc} {m' : Shared} (mv : Move m p m' p')
      → pc i ≡ p
      → IsDirty m b p
      → (f : ℕ) → (m'.trees f ≡ trees_after mv b f) ⊎ ((k : ℕ) × DirtyOn f (update pc i p' k))
  Move-clean (mutate {j}) e d f = elim (Bool-cases (j.file == f)) [
    | inl same ↦ inr (i, ground arith)
    | inr other ↦ elim (v.clean f) [
      | inl old ↦ inl (ground arith)
      | inr (k, h) ↦ inr (k, ground arith)
    ]
  ]
  Move-clean (write_fails {j}) e d f = elim (Bool-cases (j.file == f)) [
    | inl same ↦ inl (ground arith)
    | inr other ↦ elim (v.clean f) [
      | inl old ↦ inl (ground arith)
      | inr (k, h) ↦ inr (k, ground arith)
    ]
  ]
  Move-clean (restore {j}) e d f = elim (Bool-cases (j.file == f)) [
    | inl same ↦ inl (ground (arith, restored j _ (m.trees j.file) (b j.file) d.0 d.1))
    | inr other ↦ elim (v.clean f) [
      | inl old ↦ inl (ground arith)
      | inr (k, h) ↦ inr (k, ground arith)
    ]
  ]
  Move-clean (hit g) e d f = elim (v.clean f) [
    | inl old ↦ inl (ground arith)
    | inr (k, h) ↦ inr (k, ground arith)
  ]
  Move-clean mv e d f = elim (v.clean f) [
    | inl old ↦ inl (ground arith)
    | inr (k, h) ↦ inr (k, ground arith)
  ]

  -- A move of one worker keeps the invariant.
  pub Move-Inv :
      {p' : Pc} {m' : Shared} (mv : Move m (pc i) m' p')
      → Inv m' (update pc i p') (trees_after mv b)
  Move-Inv mv = record {
    below = Move-below mv;
    apart = Move-apart mv;
    known = Move-Known mv (v.known i);
    is_held = Move-is_held mv refl (v.known i);
    alone = Move-alone mv refl;
    owner = Move-owner mv refl (v.known i);
    dirty = Move-IsDirty mv refl (v.known i) (v.dirty i);
    clean = Move-clean mv refl (v.dirty i);
  }
