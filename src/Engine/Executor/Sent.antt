-- ===== src/Engine/Executor/Sent.antt =====
-- The mutant that a worker sends, against the one that it was given.
use gremlins.Prelude.{◌≡◌, ◌⊎◌, inl, inr, Bool, true, false, ◌||◌, Text, arith, Option-cases}
use gremlins.FilePath.{join}
use gremlins.Mutator.{Mutant, lived, killed, not_viable, timed_out}
use gremlins.Engine.Workdir.{Dealer}
use gremlins.Engine.TokenMutator.{
  Os, TokenMutator, World, apply, rollback, set_status, set_workdir, view, position,
}
use gremlins.Engine.Executor.{
  Settings, Format, Exec, run_tests, is_untested, sent, dropped, State, start, test_mutant,
  after_apply,
}

-- The mutant as it is sent: of the same type and at the same position; with its own status if it was
-- not covered or skipped or the run is dry, and with one of the four of a test run otherwise.
abbrev pub Delivered : Bool → TokenMutator → Mutant → Type 0
Delivered dry m v =
    (v.mutant_type ≡ m.mutant_type)
    × (v.position ≡ position m)
    × ((((is_untested m.status || dry) ≡ true) × (v.status ≡ m.status))
        ⊎ (((is_untested m.status || dry) ≡ false)
            × ((v.status ≡ timed_out)
                ⊎ (v.status ≡ killed)
                ⊎ (v.status ≡ not_viable)
                ⊎ (v.status ≡ lived))))

module _ (os : Os) (dealer : Dealer os.Disk) (fmt : Format) (exec : Exec os dealer)
    (s : Settings) where
  apply_keeps :
      (m : TokenMutator) (w : World os)
      → ((apply os m w).1.mutant_type ≡ m.mutant_type) × (position (apply os m w).1 ≡ position m)
  unfolding apply
  apply_keeps m w = ground arith

  after_apply-sent :
      (tmp root : Text) (m : TokenMutator) (w : World os) (v : Mutant)
      → (after_apply os dealer fmt exec s tmp root m w).0 ≡ sent v
      → (v.mutant_type ≡ m.mutant_type)
        × (v.position ≡ position m)
        × ((v.status ≡ timed_out)
            ⊎ (v.status ≡ killed)
            ⊎ (v.status ≡ not_viable)
            ⊎ (v.status ≡ lived))
  unfolding after_apply rollback set_status view run_tests
  after_apply-sent tmp root m w v e = ground arith

  test_mutant-Delivered :
      (tmp root : Text) (m : TokenMutator) (w : World os) (v : Mutant)
      → (test_mutant os dealer fmt exec s tmp root m w).0 ≡ sent v
      → Delivered s.dry_run m v
  unfolding test_mutant view
  test_mutant-Delivered tmp root m w v e =
      ground (arith, apply_keeps m w, after_apply-sent tmp root (apply os m w).1 (apply os m w).2 v)

  -- Whatever a worker sends for a mutant is that mutant delivered.
  pub start-Delivered :
      (worker : Text) (m : TokenMutator) (st : State os dealer) (v : Mutant)
      → (start os dealer fmt exec s worker m st).0 ≡ sent v
      → Delivered s.dry_run m v
  unfolding start set_workdir
  start-Delivered worker m st v e =
      elim (Option-cases (dealer.get worker st.cache st.world.disk).0) [
        | inl no_folder ↦ absurd (ground arith)
        | inr (root, folder) ↦
            test_mutant-Delivered (dealer.work_dir (dealer.get worker st.cache st.world.disk).1)
              root (set_workdir (join root s.module_.calling_dir) m)
              (record st.world { disk = (dealer.get worker st.cache st.world.disk).2 }) v
              (ground arith)
      ]

  -- A worker gives up only a mutant that was to be tested.
  pub start_dropped :
      (worker : Text) (m : TokenMutator) (st : State os dealer)
      → (start os dealer fmt exec s worker m st).0 ≡ dropped
      → (is_untested m.status || s.dry_run) ≡ false
  unfolding start test_mutant after_apply set_workdir
  start_dropped worker m st e = elim (Option-cases (dealer.get worker st.cache st.world.disk).0) [
    | inl no_folder ↦ absurd (ground arith)
    | inr (root, folder) ↦ ground arith
  ]
