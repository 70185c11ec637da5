-- ===== src/Engine/TokenMutator/Laws.antt =====
-- What `Apply` and `Rollback` do to the file and to the shared syntax tree.
use mathlib.Core.Path.{fun_ext}
use gremlins.Prelude.{
  ℕ, ◌≡◌, ◌≢◌, sym, ap, ◌∙◌, Bool, true, none, some, [], Text, arith, ◌⊎◌, inl, inr,
}
use gremlins.Token.{Token}
use gremlins.Engine.Mappings.{mutated_token}
use gremlins.Engine.Node.{Store, NodeToken, node_tok, set_tok}
use gremlins.Engine.TokenMutator.{
  Os, TokenMutator, World, target, ApplyError, read_failed, apply, rollback,
}

-- What os.ReadFile and os.WriteFile promise: a write with no error is read back, and a write, even
-- one that fails, leaves every other file alone.
pub record OsLaws (os : Os) : Type 0 where
  pub read-write :
      (p b : Text) (d d' : os.Disk)
      → os.write_file p b d ≡ (d', true)
      → os.read_file p d' ≡ (b, true)
  pub read-write_ne :
      (p q b : Text) (d : os.Disk)
      → q ≢ p
      → os.read_file q (os.write_file p b d).0 ≡ os.read_file q d

-- A token set and put back leaves the tree as it was.
pub set_tok_back :
    (n : NodeToken) (t : Token) (ast : Store) → set_tok n (node_tok n ast) (set_tok n t ast) ≡ ast
unfolding set_tok node_tok
set_tok_back n t ast = fun_ext λ a. at a
  where
    at : (a : ℕ) → set_tok n (node_tok n ast) (set_tok n t ast) a ≡ ast a
    at a = ground arith

-- The tree with the one token of the mutant changed.
abbrev pub mutated : TokenMutator → Store → Store
mutated m ast = set_tok m.token_node (mutated_token m.mutant_type (node_tok m.token_node ast)) ast

module _ (os : Os) where
  open os use {Disk, read_file, write_file, print_file}

  -- The text of the mutated file, where the printer makes one.
  abbrev pub payload : TokenMutator → World os → Text
  payload m w = elim (print_file m.file (mutated m w.ast)) [ none ↦ [] | some text ↦ text ]

  -- How an application with no error went.
  apply_went :
      (m m' : TokenMutator) (w w' : World os)
      → apply os m w ≡ (none, m', w')
      → (read_file (target m) w.disk ≡ (m'.orig_file, true))
        × (print_file m.file (mutated m w.ast) ≡ some (payload m w))
        × (write_file (target m) (payload m w) w.disk ≡ (w'.disk, true))
        × (w'.ast ≡ set_tok m.token_node (node_tok m.token_node w.ast) (mutated m w.ast))
        × (target m' ≡ target m)
  unfolding apply
  apply_went m m' w w' h = (ground arith, ground arith, ground arith, ground arith, ground arith)

  rollback_went :
      (m m' : TokenMutator) (w w' : World os)
      → rollback os m w ≡ (true, m', w')
      → (write_file (target m) m.orig_file w.disk ≡ (w'.disk, true))
        × (w'.ast ≡ w.ast)
        × (m'.orig_file ≡ [])
  unfolding rollback
  rollback_went m m' w w' h = (ground arith, ground arith, ground arith)

  module _ (laws : OsLaws os) where
    -- An application with no error writes the file with exactly the one token mutated, keeps what
    -- the file held before, leaves every other file alone, and leaves the shared tree as it was.
    pub apply_lem :
        (m m' : TokenMutator) (w w' : World os)
        → apply os m w ≡ (none, m', w')
        → (w'.ast ≡ w.ast)
          × (read_file (target m) w.disk ≡ (m'.orig_file, true))
          × (print_file m.file (mutated m w.ast) ≡ some (payload m w))
          × (read_file (target m) w'.disk ≡ (payload m w, true))
          × ((q : Text) → q ≢ target m → read_file q w'.disk ≡ read_file q w.disk)
    apply_lem m m' w w' h =
        let (read, printed, wrote, restored, same) = apply_went m m' w w' h in
        (
          restored ∙ set_tok_back m.token_node _ w.ast,
          read,
          printed,
          laws.read-write (target m) (payload m w) w.disk w'.disk wrote,
          λ q n.
              rw (← ap (λ (r : Disk × Bool). r.0) wrote)
                (laws.read-write_ne (target m) q (payload m w) w.disk n),
        )

    -- Whatever happens to the mutated file between an application with no error and a rollback with
    -- no error, the rollback gives the file its first content again, and forgets that content.
    pub rollback-apply :
        (m m₁ m₂ : TokenMutator) (w w₁ w₂ : World os) (disk : Disk)
        → apply os m w ≡ (none, m₁, w₁)
        → rollback os m₁ (record w₁ { disk = disk }) ≡ (true, m₂, w₂)
        → (read_file (target m) w₂.disk ≡ read_file (target m) w.disk)
          × (w₂.ast ≡ w.ast)
          × (m₂.orig_file ≡ [])
          × ((q : Text) → q ≢ target m → read_file q w₂.disk ≡ read_file q disk)
    rollback-apply m m₁ m₂ w w₁ w₂ disk h r =
        let (read, printed, wrote, restored, same) = apply_went m m₁ w w₁ h in
        let (back, kept, empty) = rollback_went m₁ m₂ (record w₁ { disk = disk }) w₂ r in
        let back_here : write_file (target m) m₁.orig_file disk ≡ (w₂.disk, true) =
          rw (← same) back in
        (
          laws.read-write (target m) m₁.orig_file disk w₂.disk back_here ∙ sym read,
          kept ∙ restored ∙ set_tok_back m.token_node _ w.ast,
          empty,
          λ q n.
              rw (← ap (λ (d : Disk × Bool). d.0) back_here)
                (laws.read-write_ne (target m) q m₁.orig_file disk n),
        )

  -- An application that fails to read the file changes nothing. One that fails later leaves the
  -- mutated token in the shared tree.
  pub apply_error :
      (m m' : TokenMutator) (w w' : World os) (e : ApplyError)
      → apply os m w ≡ (some e, m', w')
      → ((e ≡ read_failed) × (w' ≡ w)) ⊎ ((e ≢ read_failed) × (w'.ast ≡ mutated m w.ast))
  unfolding apply
  apply_error m m' w w' e h = ground arith

  -- After an application that fails to write its file, the next one with no error writes a file
  -- with two mutations: its own, and that of the mutant that failed.
  pub failed_apply_leaks :
      (laws : OsLaws os) (m n m' n' : TokenMutator) (w w' w'' : World os) (e : ApplyError)
      → e ≢ read_failed
      → apply os m w ≡ (some e, m', w')
      → apply os n w' ≡ (none, n', w'')
      → (text : Text) × (print_file n.file (mutated n (mutated m w.ast)) ≡ some text)
        × (read_file (target n) w''.disk ≡ (text, true))
  failed_apply_leaks laws m n m' n' w w' w'' e late failed fine =
      let (kept, read, printed, wrote, others) = apply_lem laws n n' w' w'' fine in
      let leaked : w'.ast ≡ mutated m w.ast = elim (apply_error m m' w w' e failed) [
        | inl (early, _) ↦ absurd (late early)
        | inr (_, at) ↦ at
      ] in
      (payload n w', rw (← leaked) printed, wrote)
