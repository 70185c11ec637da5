-- ===== src/Engine/Locks/Refinement.antt =====
-- The workers, against applications one after the other.
use gremlins.Prelude.{
  ℕ, ◌≡◌, ◌⊎◌, inl, inr, refl, sym, ◌∙◌, Bool-cases, Option-cases, true, some, arith,
}
use gremlins.Engine.Node.{Store}
use gremlins.Engine.Locks.{
  Job, Shared, System, Pc, Move, pick, init, Reach, here, next, hit, hit_late, make, lock,
  defer_unlock, mutate, write, write_fails, restore, unlock, idle, missed, found, locked, inside,
  leaving, mutated, printed,
}
use gremlins.Engine.Locks.Spec.{Spec, Runs, fine, fails, start, after}
use gremlins.Engine.Locks.Preservation.{Move-Inv}
use gremlins.Engine.Locks.Invariant.{Inv, init-Inv, trees_after, owns, IsDirty, Known}

-- A state of the workers and one of the specification: the same trees written, in the same order, and
-- the same trees wherever no worker is in the middle of an application.
abbrev pub Refines : System → Spec → Type 0
Refines s a = Inv s.mem s.pc a.trees × (s.mem.written ≡ a.written)

-- A move is an application, or is none.
Move-Runs :
    {trees : ℕ → Store} {m m' : Shared} {p p' : Pc} (mv : Move m p m' p') (a : Spec)
    → IsDirty m a.trees p
    → m.written ≡ a.written
    → Runs trees a
    → (a' : Spec) × Runs trees a' × (a'.trees ≡ trees_after mv a.trees) × (m'.written ≡ a'.written)
Move-Runs (write {j}) a d w r = (_, after r (fine j), refl, rw (d.0, w) refl)
Move-Runs (write_fails {j}) a d w r = (_, after r (fails j), refl, w)
Move-Runs (hit g) a d w r = (a, r, refl, w)
Move-Runs mv a d w r = (a, r, refl, w)

-- Whatever the order in which the workers act, the trees written are those that applications one
-- after the other write, from the same trees; and at any time each tree is the specification's, but
-- for the mutation of the one worker that is applying it.
pub Reach-Runs :
    (trees : ℕ → Store) {s : System}
    → Reach (init trees) s
    → (a : Spec) × Runs trees a × Refines s a
Reach-Runs trees here = (_, start, (init-Inv trees, refl))
Reach-Runs trees (next r (pick i mv)) =
    let (a, runs, (v, w)) = Reach-Runs trees r in
    let (a', runs', e, w') = Move-Runs mv a (v.dirty i) w runs in
    (a', runs', (rw e (Move-Inv v i mv), w'))

-- The invariant, at what the trees are between applications.
Reach-Inv :
    (trees : ℕ → Store) {s : System} → Reach (init trees) s → (b : ℕ → Store) × Inv s.mem s.pc b
Reach-Inv trees r = let (a, runs, (v, w)) = Reach-Runs trees r in (a.trees, v)

-- A worker between `Lock` and `Unlock` in an application to a file.
abbrev pub Applying : ℕ → Pc → Type 0
Applying f (locked j _) = j.file ≡ f
Applying f (inside j _ _) = j.file ≡ f
Applying f (leaving j _ _) = j.file ≡ f
Applying f (mutated j _ _ _) = j.file ≡ f
Applying f (printed j _ _ _) = j.file ≡ f
Applying f _ = ⊥

Applying-owns :
    (m : Shared) (f : ℕ) (p : Pc)
    → Known m p
    → Applying f p
    → (l : ℕ) × (m.locks f ≡ some l) × (owns p ≡ some l)
Applying-owns m f (locked j l) o h = (l, ground arith, refl)
Applying-owns m f (inside j l _) o h = (l, ground arith, refl)
Applying-owns m f (leaving j l _) o h = (l, ground arith, refl)
Applying-owns m f (mutated j l _ _) o h = (l, ground arith, refl)
Applying-owns m f (printed j l _ _) o h = (l, ground arith, refl)
Applying-owns m f idle o h = absurd h
Applying-owns m f (missed _) o h = absurd h
Applying-owns m f (found _ _) o h = absurd h

-- No two workers are in an application to one file at once, however they came by its mutex.
pub one_at_a_time :
    (trees : ℕ → Store) {s : System} (i k f : ℕ)
    → Reach (init trees) s
    → Applying f (s.pc i)
    → Applying f (s.pc k)
    → i ≡ k
one_at_a_time trees {s} i k f r hi hk =
    let (b, v) = Reach-Inv trees r in
    let (l, e, o) = Applying-owns s.mem f (s.pc i) (v.known i) hi in
    let (l', e', o') = Applying-owns s.mem f (s.pc k) (v.known k) hk in
    v.alone i k l o (o' ∙ sym e' ∙ e)

-- A worker that can move.
abbrev pub CanMove : Shared → Pc → Type 0
CanMove m p = (m' : Shared) × (p' : Pc) × Move m p m' p'

owner_moves : (m : Shared) (p : Pc) (l : ℕ) → Known m p → owns p ≡ some l → CanMove m p
owner_moves m idle l o h = absurd (cc)
owner_moves m (missed j) l o h = absurd (cc)
owner_moves m (found j _) l o h = absurd (cc)
owner_moves m (locked j _) l o h = (_, _, defer_unlock o)
owner_moves m (inside j _ _) l o h = (_, _, mutate)
owner_moves m (leaving j _ _) l o h = (_, _, unlock)
owner_moves m (mutated j _ _ _) l o h = (_, _, write)
owner_moves m (printed j _ _ _) l o h = (_, _, restore)

-- A worker waits for a mutex that another one has, which can move.
abbrev pub Waits : System → ℕ → Type 0
Waits s i =
    (j : Job) × (l k : ℕ) × (s.pc i ≡ found j l) × (owns (s.pc k) ≡ some l) × CanMove s.mem (s.pc k)

moves_or_Waits :
    (s : System) (b : ℕ → Store)
    → Inv s.mem s.pc b
    → (i : ℕ) (p : Pc) → s.pc i ≡ p
    → Known s.mem p
    → (s.pc i ≡ idle) ⊎ CanMove s.mem p ⊎ Waits s i
moves_or_Waits s b v i idle e o = inl e
moves_or_Waits s b v i (missed j) e o = elim (Option-cases (s.mem.locks j.file)) [
  | inl free ↦ inr (inl (_, _, make free))
  | inr (l, got) ↦ inr (inl (_, _, hit_late got))
]
moves_or_Waits s b v i (found j l) e o = elim (Bool-cases (s.mem.held l)) [
  | inl taken ↦
      let (k, own) = v.owner l taken in
      inr (inr (j, l, k, e, own, owner_moves s.mem (s.pc k) l (v.known k) own))
  | inr free ↦ inr (inl (_, _, lock free))
]
moves_or_Waits s b v i (locked j l) e o = inr (inl (owner_moves s.mem (locked j l) l o refl))
moves_or_Waits s b v i (inside j l l') e o = inr (inl (owner_moves s.mem (inside j l l') l o refl))
moves_or_Waits s b v i (leaving j l l') e o =
    inr (inl (owner_moves s.mem (leaving j l l') l o refl))
moves_or_Waits s b v i (mutated j l l' t) e o =
    inr (inl (owner_moves s.mem (mutated j l l' t) l o refl))
moves_or_Waits s b v i (printed j l l' t) e o =
    inr (inl (owner_moves s.mem (printed j l l' t) l o refl))

-- No deadlock: at any time a worker is idle, or can move, or waits for a mutex whose owner can.
pub Reach_moves :
    (trees : ℕ → Store) {s : System} (i : ℕ)
    → Reach (init trees) s
    → (s.pc i ≡ idle) ⊎ CanMove s.mem (s.pc i) ⊎ Waits s i
Reach_moves trees {s} i r =
    let (b, v) = Reach-Inv trees r in moves_or_Waits s b v i (s.pc i) refl (v.known i)

-- The mutex of the deferred `Unlock` is locked when it runs, and is the one that was locked before.
pub unlock_held :
    (trees : ℕ → Store) {s : System} (i : ℕ) (j : Job) (l l' : ℕ)
    → Reach (init trees) s
    → s.pc i ≡ leaving j l l'
    → (l ≡ l') × (s.mem.held l' ≡ true)
unlock_held trees {s} i j l l' r e =
    let (b, v) = Reach-Inv trees r in
    let same : l ≡ l' = (rw e at (v.known i)).1 in (same, rw (← same) (v.is_held i l (rw e refl)))
