-- ===== src/Coverage/Run.antt =====
-- internal/coverage/coverage.go: `NewWithCmd` and `Run`, the gathering of the coverage.
-- Running a command, reading a file and golang.org/x/tools/cover are parameters.
use gremlins.Prelude.{
  ◌≢◌, inl, inr, Bool-cases, Option-cases, ◌≡◌, ◌↔◌, ℕ, Bool, true, List, [], ◌∷◌, Option, none,
  some, Text, codes, arith, if◌then◌else◌,
}
use gremlins.Token.{Position}
use gremlins.GoModule.{GoModule}
use gremlins.Coverage.Profile.{Profile, is_covered}
use gremlins.Coverage.Profile.Intervals.{WithinAny}
use gremlins.Coverage.Parse.{Coverage, FileProfile, parse, file_path, coverage_args}
use gremlins.Coverage.Parse.Laws.{ran_in, is_covered-parse}

-- What the program uses of the system: a change of the working directory, whose error is dropped; a
-- `go` command with its arguments, whether it went well, and the time it took; a file's content; and
-- the parser of coverage profiles.
pub record System : Type 1 where
  pub World : Type 0
  pub chdir : Text → World → World
  pub go : List Text → World → Bool × ℕ × World
  pub open_file : Text → World → Option Text
  pub parse_profiles : Text → Option (List FileProfile)

-- `NewWithCmd`, from the values of the configuration.
unfoldable pub new_coverage : Text → GoModule → Text → Text → Bool → Coverage
new_coverage work_dir mod_ build_tags cover_pkg integration_mode = record {
  work_dir = work_dir;
  file_name = codes "coverage";
  mod_ = mod_;
  build_tags = build_tags;
  cover_pkg = cover_pkg;
  integration_mode = integration_mode;
}

pub data CoverageResult : Type 0 where
  gathered : Profile → ℕ → CoverageResult
  download_failed coverage_failed profile_failed : CoverageResult

module _ (sys : System) where
  open sys use {World, chdir, go, open_file, parse_profiles}

  -- `profile`; `none` is its error.
  unfoldable pub profile : Coverage → World → Option Profile
  unfolding parse file_path
  profile c w = elim (open_file (file_path c) w) [
    | none ↦ none
    | some text ↦ elim (parse_profiles text) [
      | none ↦ none
      | some profiles ↦ some (parse c.mod_ profiles)
    ]
  ]

  -- `Run` once the modules are there: `executeCoverage`, and the profile that it leaves.
  unfoldable pub execute_coverage : Coverage → World → CoverageResult × World
  unfolding coverage_args profile
  execute_coverage c w =
      let (fine, elapsed, w') = go (coverage_args c) w in
      if fine
      then (elim (profile c w') [ none ↦ profile_failed | some p ↦ gathered p elapsed ], w')
      else (coverage_failed, w')

  -- `Run`.
  unfoldable pub run_coverage : Coverage → World → CoverageResult × World
  unfolding execute_coverage
  run_coverage c w =
      let (fine, time, w') = go (codes "mod" ∷ codes "download" ∷ []) (chdir c.mod_.root w) in
      if fine then execute_coverage c w' else (download_failed, w')

  profile-some :
      (c : Coverage) (p : Profile) (w : World)
      → profile c w ≡ some p
      → (text : Text) × (ps : List FileProfile) × (open_file (file_path c) w ≡ some text)
        × (parse_profiles text ≡ some ps)
        × ((pos : Position)
            → (is_covered p pos ≡ true) ↔ WithinAny (ran_in c.mod_ pos.filename ps) pos)
  unfolding profile
  profile-some c p w e = elim (Option-cases (open_file (file_path c) w)) [
    | inl missing ↦ absurd (ground arith)
    | inr (text, read) ↦ elim (Option-cases (parse_profiles text)) [
      | inl bad ↦ absurd (ground arith)
      | inr (ps, good) ↦
          let same : parse c.mod_ ps ≡ p = ground arith in
          (text, ps, read, good, λ pos. rw (← same) (is_covered-parse c.mod_ ps pos))
    ]
  ]

  execute_coverage_gathered :
      (c : Coverage) (p : Profile) (elapsed : ℕ) (w w' : World)
      → execute_coverage c w ≡ (gathered p elapsed, w')
      → (go (coverage_args c) w ≡ (true, elapsed, w'))
        × ((text : Text) × (ps : List FileProfile) × (open_file (file_path c) w' ≡ some text)
            × (parse_profiles text ≡ some ps)
            × ((pos : Position)
                → (is_covered p pos ≡ true) ↔ WithinAny (ran_in c.mod_ pos.filename ps) pos))
  unfolding execute_coverage
  execute_coverage_gathered c p elapsed w w' e =
      elim (Option-cases (profile c (go (coverage_args c) w).2)) [
        | inl missing ↦ absurd (ground arith)
        | inr (p', got) ↦
            let same : p' ≡ p = ground arith in
            let there : (go (coverage_args c) w).2 ≡ w' = ground arith in
            (ground arith, profile-some c p w' (rw (← same, ← there) got))
      ]

  abbrev pub Gathered : Coverage → Profile → ℕ → World → World → Type 0
  Gathered c p elapsed w w' =
      let downloaded = go (codes "mod" ∷ codes "download" ∷ []) (chdir c.mod_.root w) in
      (downloaded.0 ≡ true)
      × (go (coverage_args c) downloaded.2 ≡ (true, elapsed, w'))
      × ((text : Text) × (ps : List FileProfile) × (open_file (file_path c) w' ≡ some text)
          × (parse_profiles text ≡ some ps)
          × ((pos : Position)
              → (is_covered p pos ≡ true) ↔ WithinAny (ran_in c.mod_ pos.filename ps) pos))

  -- A coverage that is gathered is that of the profile which the coverage run left in the file that
  -- it was told to write, with the time of that run alone; both commands went well; and the covered
  -- positions are those within a block that the profile counts as run.
  pub run_coverage_gathered :
      (c : Coverage) (p : Profile) (elapsed : ℕ) (w w' : World)
      → run_coverage c w ≡ (gathered p elapsed, w')
      → Gathered c p elapsed w w'
  unfolding run_coverage
  run_coverage_gathered c p elapsed w w' e =
      elim (Bool-cases (go (codes "mod" ∷ codes "download" ∷ []) (chdir c.mod_.root w)).0) [
        | inl fine ↦
            let (ran, left) =
              execute_coverage_gathered c p elapsed
                (go (codes "mod" ∷ codes "download" ∷ []) (chdir c.mod_.root w)).2 w'
                (rw fine at e) in
            (fine, ran, left)
        | inr failed ↦ absurd (not_downloaded (rw failed at e))
      ]
    where
      not_downloaded :
          {v : World}
          → ◌≢◌ {A = CoverageResult × World} (download_failed, v) (gathered p elapsed, w')
      not_downloaded h = cc
