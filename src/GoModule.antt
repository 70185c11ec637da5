-- ===== src/GoModule.antt =====
-- internal/gomodule/gomodule.go: the module that gremlins runs in. The file system is a parameter.
pub mod Laws
use gremlins.Prelude.{Bool, List, [], ◌∷◌, ◌++◌, Option, none, some, Text, codes}
use gremlins.Prelude.GoText.{trim_prefix}
use gremlins.FilePath.{clean, join, rel}
use gremlins.FilePath.Climb.{find_above}

pub record GoModule : Type 0 where
  pub name : Text
  pub root : Text
  pub calling_dir : Text

-- What the program asks of the file system: whether `os.Stat` finds a file that is no folder, and
-- the first line of a file, `none` where it cannot be opened or has no line.
pub record Files : Type 0 where
  pub is_file : Text → Bool
  pub first_line : Text → Option Text

-- Whether a folder has a go.mod.
abbrev pub has_go_mod : Files → Text → Bool
has_go_mod fs folder = fs.is_file (join folder (codes "go.mod"))

-- `findModuleRoot`.
unfoldable pub find_module_root : Files → Text → Text
unfolding find_above clean
find_module_root fs path = elim (find_above (has_go_mod fs) (clean path)) [
  | none ↦ []
  | some root ↦ root
]

-- `modPkg`: the name and the root of the module.
unfoldable pub mod_pkg : Files → Text → Option (Text × Text)
unfolding find_module_root trim_prefix
mod_pkg fs path =
    let root = find_module_root fs path in
    elim (fs.first_line (root ++ codes "/go.mod")) [
      | none ↦ none
      | some line ↦ some (trim_prefix line (codes "module "), root)
    ]

pub data InitResult : Type 0 where
  path_not_set unreadable : InitResult
  found : GoModule → InitResult

-- The result of `filepath.Rel` where its error is dropped.
abbrev pub or_empty : Option Text → Text
or_empty none = []
or_empty (some p) = p

-- `Init`.
unfoldable pub init_module : Files → Text → InitResult
unfolding mod_pkg rel
init_module fs [] = path_not_set
init_module fs (c ∷ path) = elim (mod_pkg fs (c ∷ path)) [
  | none ↦ unreadable
  | some (name, root) ↦
      found (record { name = name; root = root; calling_dir = or_empty (rel root (c ∷ path)) })
]
