-- ===== src/Engine/Locks/Invariant.antt =====
-- What holds at every point of every interleaving: who holds which mutex, and what the trees are.
use gremlins.Prelude.{
  ℕ, ◌≡◌, ◌<◌, ◌≢◌, ◌⊎◌, inl, refl, sym, ap, ◌∙◌, true, false, Option, none, some, arith,
}
use gremlins.Token.{Token}
use gremlins.Engine.Node.{Store, node_tok, set_tok}
use gremlins.Engine.TokenMutator.Laws.{set_tok_back}
use gremlins.Engine.Locks.{
  init, Job, mutate_tree, update, Shared, Pc, idle, missed, found, locked, inside, leaving, mutated,
  printed, Move, hit, miss, hit_late, make, lock, defer_unlock, write_fails,
}

-- The mutex that a worker has locked.
abbrev pub owns : Pc → Option ℕ
owns idle = none
owns (missed _) = none
owns (found _ _) = none
owns (locked _ l) = some l
owns (inside _ l _) = some l
owns (leaving _ l _) = some l
owns (mutated _ l _ _) = some l
owns (printed _ l _ _) = some l

-- The mutexes that a worker has asked for are those of the table.
abbrev pub Known : Shared → Pc → Type 0
Known m idle = Unit
Known m (missed _) = Unit
Known m (found j l) = m.locks j.file ≡ some l
Known m (locked j l) = m.locks j.file ≡ some l
Known m (inside j l l') = (m.locks j.file ≡ some l) × (l ≡ l')
Known m (leaving j l l') = (m.locks j.file ≡ some l) × (l ≡ l')
Known m (mutated j l l' _) = (m.locks j.file ≡ some l) × (l ≡ l')
Known m (printed j l l' _) = (m.locks j.file ≡ some l) × (l ≡ l')

-- A worker whose mutation is in the tree of a file.
abbrev pub DirtyOn : ℕ → Pc → Type 0
DirtyOn f (mutated j _ _ _) = j.file ≡ f
DirtyOn f (printed j _ _ _) = j.file ≡ f
DirtyOn f _ = ⊥

-- What such a worker knows: the tree has its mutation and no other, and the token it has saved is
-- the one that was there.
abbrev pub IsDirty : Shared → (ℕ → Store) → Pc → Type 0
IsDirty m b (mutated j _ _ t) =
    (m.trees j.file ≡ mutate_tree j (b j.file)) × (t ≡ node_tok j.node (b j.file))
IsDirty m b (printed j _ _ t) =
    (m.trees j.file ≡ mutate_tree j (b j.file)) × (t ≡ node_tok j.node (b j.file))
IsDirty m b _ = Unit

-- `b` is what the trees are between applications.
pub record Inv (m : Shared) (pc : ℕ → Pc) (b : ℕ → Store) : Type 0 where
  pub below : (f l : ℕ) → m.locks f ≡ some l → l < m.made
  pub apart : (f g l : ℕ) → m.locks f ≡ some l → m.locks g ≡ some l → f ≡ g
  pub known : (i : ℕ) → Known m (pc i)
  pub is_held : (i l : ℕ) → owns (pc i) ≡ some l → m.held l ≡ true
  pub alone : (i k l : ℕ) → owns (pc i) ≡ some l → owns (pc k) ≡ some l → i ≡ k
  pub owner : (l : ℕ) → m.held l ≡ true → (i : ℕ) × (owns (pc i) ≡ some l)
  pub dirty : (i : ℕ) → IsDirty m b (pc i)
  pub clean : (f : ℕ) → (m.trees f ≡ b f) ⊎ ((i : ℕ) × DirtyOn f (pc i))

pub init-Inv : (trees : ℕ → Store) → Inv (init trees).mem (init trees).pc trees
init-Inv trees = record {
  below = λ f l e. cc;
  apart = λ f g l e. cc;
  known = λ i. tt;
  is_held = λ i l e. cc;
  alone = λ i k l e. cc;
  owner = λ l e. cc;
  dirty = λ i. tt;
  clean = λ f. inl refl;
}

-- The premise of a move, for the clauses below that do not name it.
abbrev pub Guard : {m m' : Shared} {p p' : Pc} → Move m p m' p' → Type 0
Guard {m} (hit {j} {l} _) = m.locks j.file ≡ some l
Guard {m} (miss {j} _) = m.locks j.file ≡ none
Guard {m} (hit_late {j} {l} _) = m.locks j.file ≡ some l
Guard {m} (make {j} _) = m.locks j.file ≡ none
Guard {m} (lock {l = l} _) = m.held l ≡ false
Guard {m} (defer_unlock {j} {l' = l'} _) = m.locks j.file ≡ some l'
Guard _ = Unit

pub guard : {m m' : Shared} {p p' : Pc} (mv : Move m p m' p') → Guard mv
guard (hit g) = g
guard (miss g) = g
guard (hit_late g) = g
guard (make g) = g
guard (lock g) = g
guard (defer_unlock g) = g
guard _ = tt

pub DirtyOn-owns :
    (m : Shared) (p : Pc) (f l : ℕ) → Known m p → DirtyOn f p → m.locks f ≡ some l → owns p ≡ some l
DirtyOn-owns m (mutated j l l' t) f l₀ o d q = sym o.0 ∙ ap m.locks d ∙ q
DirtyOn-owns m (printed j l l' t) f l₀ o d q = sym o.0 ∙ ap m.locks d ∙ q
DirtyOn-owns m _ f l₀ o d q = absurd d

-- The trees between applications, after a move: an application that fails leaves its mutation.
abbrev pub trees_after : {m m' : Shared} {p p' : Pc} → Move m p m' p' → (ℕ → Store) → ℕ → Store
trees_after (write_fails {j}) b = update b j.file (mutate_tree j (b j.file))
trees_after _ b = b

-- Putting the saved token back undoes the mutation.
pub restored :
    (j : Job) (t : Token) (now before : Store)
    → now ≡ mutate_tree j before
    → t ≡ node_tok j.node before
    → set_tok j.node t now ≡ before
unfolding mutate_tree
restored j t now before e q = rw (e, q) (set_tok_back j.node _ before)

-- What a worker knows of its own tree stays true where another file's tree changes.
pub IsDirty-other :
    (m m' : Shared) (b b' : ℕ → Store) (p : Pc) (f : ℕ)
    → ¬ DirtyOn f p
    → ((g : ℕ) → f ≢ g → m'.trees g ≡ m.trees g)
    → ((g : ℕ) → f ≢ g → b' g ≡ b g)
    → IsDirty m b p
    → IsDirty m' b' p
IsDirty-other m m' b b' (mutated j l l' t) f n s s' d = ground (arith, s j.file, s' j.file)
IsDirty-other m m' b b' (printed j l l' t) f n s s' d = ground (arith, s j.file, s' j.file)
IsDirty-other m m' b b' _ f n s s' d = tt
