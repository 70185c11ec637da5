-- ===== src/Engine/Executor/Laws.antt =====
-- What becomes of a mutant that a worker starts.
use gremlins.Prelude.{
  ℕ, ◌-◌, ◌≡◌, ◌≢◌, ◌↔◌, ◌⊎◌, inl, inr, refl, pos, true, false, none, some, Text, arith,
  Option-cases,
}
use gremlins.FilePath.{join}
use gremlins.Mutator.{lived, killed, not_viable, timed_out}
use gremlins.Engine.Workdir.{Dealer}
use gremlins.Engine.TokenMutator.{
  Os, TokenMutator, World, apply, rollback, set_status, set_workdir, view, target,
}
use gremlins.Engine.TokenMutator.Laws.{OsLaws, rollback-apply}
use gremlins.Engine.Executor.{
  Settings, Format, Exec, TestRun, exit_error, run_tests, test_dir, test_env, is_untested, finished,
  is_late, Finish, sent, dropped, panicked, State, start, test_mutant, after_apply, get_test_args,
}

-- The status that a test run gives. Timed out: the deadline passed. Killed: it did not, and the
-- command ended with exit code 1. Not viable: the same with exit code 2. Lived: anything else, a
-- command that could not be started included.
pub run_tests_status :
    (r : TestRun)
    → let died = λ (code : ℕ). r.ended ≡ finished (exit_error (pos code)) in
      ((run_tests r ≡ timed_out) ↔ (is_late r ≡ true))
      × ((run_tests r ≡ killed) ↔ ((is_late r ≡ false) × died 1))
      × ((run_tests r ≡ not_viable) ↔ ((is_late r ≡ false) × died 2))
      × ((run_tests r ≡ lived) ↔ ((is_late r ≡ false) × (¬ died 1) × (¬ died 2)))
unfolding run_tests
run_tests_status r = ground arith

module _ (os : Os) (dealer : Dealer os.Disk) (fmt : Format) (exec : Exec os dealer)
    (s : Settings) where
  -- The run of the tests of a mutant that is applied.
  abbrev pub tests_of : Text → Text → TokenMutator → World os → TestRun
  tests_of tmp root m w =
      (exec (get_test_args fmt s m.pkg) (test_env os dealer tmp) (test_dir os dealer s m root)
        w.disk).0

  -- What a worker does with a mutant once its folder is there: it sends it as it is, drops it, or
  -- sends it tested.
  abbrev pub Tests :
      Text → Text → TokenMutator → World os → Finish × TokenMutator × World os → Type 0
  Tests tmp root m w (finish, m', w') =
      (((is_untested m.status ≡ true) ⊎ (s.dry_run ≡ true)) × (finish ≡ sent (view m)) × (w' ≡ w))
      ⊎ ((is_untested m.status ≡ false)
          × (s.dry_run ≡ false)
          × ((apply os m w).0 ≢ none)
          × (finish ≡ dropped))
      ⊎ ((is_untested m.status ≡ false)
          × (s.dry_run ≡ false)
          × (let (failed, m₂, w₂) = apply os m w in
              (failed ≡ none)
              × (finish ≡ sent (view m'))
              × (m'.status ≡ run_tests (tests_of tmp root m₂ w₂))))

  after_apply-tests_of :
      (tmp root : Text) (m : TokenMutator) (w : World os)
      → let (finish, m', w') = after_apply os dealer fmt exec s tmp root m w in
        (finish ≡ sent (view m')) × (m'.status ≡ run_tests (tests_of tmp root m w))
  unfolding after_apply rollback set_status
  after_apply-tests_of tmp root m w = (refl, refl)

  test_mutant-Tests :
      (tmp root : Text) (m : TokenMutator) (w : World os)
      → Tests tmp root m w (test_mutant os dealer fmt exec s tmp root m w)
  unfolding test_mutant
  test_mutant-Tests tmp root m w =
      ground (arith, after_apply-tests_of tmp root (apply os m w).1 (apply os m w).2)

  test_mutant_runs :
      (tmp root : Text) (m m₂ : TokenMutator) (w w₂ : World os)
      → is_untested m.status ≡ false
      → s.dry_run ≡ false
      → apply os m w ≡ (none, m₂, w₂)
      → test_mutant os dealer fmt exec s tmp root m w
        ≡ after_apply os dealer fmt exec s tmp root m₂ w₂
  unfolding test_mutant
  test_mutant_runs tmp root m m₂ w w₂ runs wet applied = ground arith

  test_restores :
      OsLaws os
      → (tmp root : Text) (m m₂ : TokenMutator) (w w₂ : World os)
      → let args = get_test_args fmt s m₂.pkg in
        let after = (exec args (test_env os dealer tmp) (test_dir os dealer s m₂ root) w₂.disk).1 in
        is_untested m.status ≡ false
        → s.dry_run ≡ false
        → apply os m w ≡ (none, m₂, w₂)
        → (rollback os m₂ (record w₂ { disk = after })).0 ≡ true
        → let w' = (test_mutant os dealer fmt exec s tmp root m w).2 in
          (os.read_file (target m) w'.disk ≡ os.read_file (target m) w.disk) × (w'.ast ≡ w.ast)
  unfolding after_apply rollback
  test_restores laws tmp root m m₂ w w₂ runs wet applied back =
      let args = get_test_args fmt s m₂.pkg in
      let after = (exec args (test_env os dealer tmp) (test_dir os dealer s m₂ root) w₂.disk).1 in
      let r = rollback os m₂ (record w₂ { disk = after }) in
      let restored =
        rollback-apply os laws m m₂ r.1 w w₂ r.2 after applied (λ i. (back i, r.1, r.2)) in
      rw (test_mutant_runs tmp root m m₂ w w₂ runs wet applied) (restored.0, restored.1)

  -- Every path of `Start` takes one from the wait group. With no folder the worker panics, and the
  -- mutant is not sent. With one, a mutant that is not covered or skipped, and every mutant in a dry
  -- run, is sent as it is, and its file is not touched; any other is not sent where its application
  -- fails, and else is sent with the status that `run_tests` gives for the run of its tests.
  pub start_outcome :
      (worker : Text) (m : TokenMutator) (st : State os dealer)
      → let (folder, cache', disk') = dealer.get worker st.cache st.world.disk in
        let (finish, m', st') = start os dealer fmt exec s worker m st in
        (st'.wg ≡ st.wg - 1)
        × (((folder ≡ none) × (finish ≡ panicked))
            ⊎ ((root : Text) × (folder ≡ some root)
                × Tests
                    (dealer.work_dir cache')
                    root
                    (set_workdir (join root s.module_.calling_dir) m)
                    (record st.world { disk = disk' })
                    (finish, m', st'.world)))
  unfolding start
  start_outcome worker m st = elim (Option-cases (dealer.get worker st.cache st.world.disk).0) [
    | inl e ↦ rw (e, start) (refl, inl (refl, refl))
    | inr (root, e) ↦
        rw (e, start)
          (
            refl,
            inr (
              root,
              refl,
              test_mutant-Tests (dealer.work_dir (dealer.get worker st.cache st.world.disk).1) root
                  (set_workdir (join root s.module_.calling_dir) m)
                  (record st.world { disk = (dealer.get worker st.cache st.world.disk).2 }),
            ),
          )
  ]

  -- Where the application and the rollback of a tested mutant have no error, the mutant's file holds
  -- after `Start` what it held once the worker had its folder, whatever the tests did to it, and the
  -- syntax trees are as they were.
  pub start_restores :
      OsLaws os
      → (worker root : Text) (m m₂ : TokenMutator) (st : State os dealer) (w₂ : World os)
      → let (folder, cache', disk') = dealer.get worker st.cache st.world.disk in
        let m₁ = set_workdir (join root s.module_.calling_dir) m in
        let w₁ = record st.world { disk = disk' } in
        let args = get_test_args fmt s m₂.pkg in
        let after =
          (exec args
            (test_env os dealer (dealer.work_dir cache'))
            (test_dir os dealer s m₂ root)
            w₂.disk).1 in
        folder ≡ some root
        → is_untested m.status ≡ false
        → s.dry_run ≡ false
        → apply os m₁ w₁ ≡ (none, m₂, w₂)
        → (rollback os m₂ (record w₂ { disk = after })).0 ≡ true
        → let w' = (start os dealer fmt exec s worker m st).2.world in
          (os.read_file (target m₁) w'.disk ≡ os.read_file (target m₁) disk')
          × (w'.ast ≡ st.world.ast)
  unfolding start
  start_restores laws worker root m m₂ st w₂ there runs wet applied back =
      rw (there, start)
        (test_restores laws (dealer.work_dir (dealer.get worker st.cache st.world.disk).1) root
          (set_workdir (join root s.module_.calling_dir) m) m₂
          (record st.world { disk = (dealer.get worker st.cache st.world.disk).2 }) w₂ runs wet
          applied back)
