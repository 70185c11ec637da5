-- ===== src/Coverage/Parse.antt =====
-- internal/coverage/coverage.go: the arguments of the coverage run, and `parse`, which keeps the
-- covered blocks of the profiles that golang.org/x/tools/cover reads.
pub mod Laws
pub mod Names
use gremlins.Prelude.{
  ℕ, Bool, true, false, not, List, [], ◌∷◌, ◌++◌, Option, none, some, Text, codes, text_eq, ◌==◌,
  if◌then◌else◌, length, ◌-◌,
}
use gremlins.Prelude.GoText.{remove_all}
use gremlins.Prelude.GoMap.{append_at}
use gremlins.FilePath.{rel}
use gremlins.GoModule.{GoModule}
use gremlins.Coverage.Profile.{Block, Profile}

-- `cover.ProfileBlock` and `cover.Profile`, as far as the program reads them.
pub record ProfileBlock : Type 0 where
  pub block : Block
  pub open block use *
  pub count : ℕ

pub record FileProfile : Type 0 where
  pub file_name : Text
  pub blocks : List ProfileBlock

-- What `NewWithCmd` reads from the configuration.
pub record Coverage : Type 0 where
  pub work_dir : Text
  pub file_name : Text
  pub mod_ : GoModule
  pub build_tags : Text
  pub cover_pkg : Text
  pub integration_mode : Bool

-- `removeModuleFromPath`; the error of `filepath.Rel` is dropped, and its result is then "".
unfoldable pub remove_module_from_path : GoModule → Text → Text
remove_module_from_path m file_name =
    elim (rel m.calling_dir (remove_all (m.name ++ codes "/") file_name)) [
      | none ↦ []
      | some path ↦ path
    ]

-- The inner loop of `parse`: the blocks of one profile.
unfoldable pub add_blocks : Text → List ProfileBlock → Profile → Profile
add_blocks fn [] status = status
add_blocks fn (b ∷ bs) status =
    add_blocks fn bs (if b.count == 0 then status else append_at fn b.block status)

unfoldable pub add_profiles : GoModule → List FileProfile → Profile → Profile
add_profiles m [] status = status
add_profiles m (p ∷ ps) status =
    add_profiles m ps (add_blocks (remove_module_from_path m p.file_name) p.blocks status)

-- `parse`, from the profiles on.
unfoldable pub parse : GoModule → List FileProfile → Profile
unfolding add_profiles
parse m profiles = add_profiles m profiles []

-- `filePath`.
unfoldable pub file_path : Coverage → Text
file_path c = c.work_dir ++ codes "/" ++ c.file_name

-- `scanPath`.
unfoldable pub scan_path : Coverage → Text
scan_path c =
    if not c.integration_mode
    then if not (text_eq c.mod_.calling_dir (codes "."))
      then codes "./" ++ c.mod_.calling_dir ++ codes "/..."
      else codes "./..."
    else codes "./..."

-- The arguments that `executeCoverage` gives to `go`.
unfoldable pub coverage_args : Coverage → List Text
unfolding file_path scan_path
coverage_args c =
    codes "test" ∷ (if text_eq c.build_tags [] then [] else codes "-tags" ∷ c.build_tags ∷ [])
    ++ (if text_eq c.cover_pkg [] then [] else codes "-coverpkg" ∷ c.cover_pkg ∷ [])
    ++ codes "-cover" ∷ codes "-coverprofile" ∷ file_path c ∷ scan_path c ∷ []
