-- ===== src/Command/Root/Codes.antt =====
-- The exit codes of the program.
use gremlins.Prelude.{ℕ, ◌≡◌, ◌≢◌, ◌↔◌, ◌⊎◌, Bool, false, [], ◌∷◌, none, Text, text_eq, arith}
use gremlins.GoModule.{GoModule}
use gremlins.Configuration.Paths as Paths
use gremlins.Report.{Results}
use gremlins.Report.Float.{Float64}
use gremlins.Report.Assess.{Config}
use gremlins.Report.Thresholds.{EfficacyMissed, CoverageMissed}
use gremlins.Command.Flags.{FlagLib, silent_flag, set_flags}
use gremlins.Command.Unleash.{Tools, Options, ran, died, run_program}
use gremlins.Command.Root.{build_version, new_unleash_cmd, new_root_cmd, Surroundings}

module _ (t : Tools) (f : Float64) where
  -- A threshold that the results of a run miss, with its code.
  abbrev pub Missed : Config f → Results → ℕ → Type 0
  Missed c results code =
      (results.mutants ≢ [])
      × (c.dry_run ≡ false)
      × (((code ≡ 10) × EfficacyMissed f c results.mutants)
          ⊎ ((code ≡ 11)
              × (¬ EfficacyMissed f c results.mutants)
              × CoverageMissed f c results.mutants))

  -- Results of a run that was not cancelled miss a threshold.
  abbrev pub Gated : Config f → Options → Bool → ℕ → Type 0
  Gated c o cancelled code =
      (mod_ : GoModule) × (work_dir : Text) × (w : t.World) × (results : Results) × ((run_program t
          o mod_ work_dir w).0
        ≡ ran results)
      × (cancelled ≡ false)
      × Missed c results code

  -- A worker panics in a run.
  abbrev pub WorkerPanics : Options → ℕ → Type 0
  WorkerPanics o code =
      (mod_ : GoModule) × (work_dir : Text) × (w : t.World) × ((run_program t o mod_ work_dir w).0
        ≡ died)
      × (code ≡ 2)

  -- What the exit code of `unleash` may be.
  abbrev pub Codes : Config f → Options → Bool → ℕ → Type 0
  Codes c o cancelled code =
      (code ≡ 0) ⊎ (code ≡ 1) ⊎ WorkerPanics o code ⊎ Gated c o cancelled code

  module _ (lib : FlagLib) where
    -- The program exits with a code other than 0 and 1 only if results miss a threshold, or in a
    -- panic: that of a worker, or that of a second signal.
    abbrev pub Exits : Surroundings t f lib → ℕ → Type 0
    Exits e code =
        ((code ≡ 2) × (e.second_signal ≢ none))
        ⊎ (code ≡ 0)
        ⊎ (code ≡ 1)
        ⊎ ((read : Paths.InitResult) × (WorkerPanics (e.options read) code
              ⊎ Gated (e.config read) (e.options read) e.cancelled code))

-- The check of the version in `newRootCmd` never fails in the program: `main` gives a text that is not
-- empty, whatever the version is. So the root command fails to be built exactly when a flag of
-- `unleash`, or the one of the root command, cannot be bound.
pub new_root_cmd-build_version :
    (lib : FlagLib) (version goos goarch : Text) (fs : lib.FlagSet)
    → (new_root_cmd lib (build_version version goos goarch) fs ≡ none)
      ↔ ((new_unleash_cmd lib fs ≡ none) ⊎ (set_flags lib silent_flag fs ≡ none))
unfolding new_root_cmd build_version text_eq
new_root_cmd-build_version lib [] goos goarch fs = ground arith
new_root_cmd-build_version lib (c ∷ version) goos goarch fs = ground arith
