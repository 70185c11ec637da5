-- ===== src/Configuration/Paths.antt =====
-- `Init` and `defaultConfigPaths` of internal/configuration/configuration.go: where the
-- configuration file is looked for. The operating system is one that is not Windows.
use gremlins.Prelude.{
  ◌≡◌, Bool, true, false, not, List, [], ◌∷◌, ◌++◌, Option, none, some, Text, codes, text_eq,
  if◌then◌else◌, arith,
}
use gremlins.FilePath.{join, ext}
use gremlins.FilePath.Climb.{find_above, FirstAbove, find_above-FirstAbove}

-- What `Init` asks of the environment: `homedir.Expand` of "~/.config" and of "~/.gremlins" (`none`
-- is its error), the variable XDG_CONFIG_HOME, the working directory, and whether `os.Stat` finds a
-- file that is no folder.
pub record Env : Type 0 where
  pub home_config : Option Text
  pub home_gremlins : Option Text
  pub xdg_config_home : Text
  pub getwd : Text
  pub is_file : Text → Bool

abbrev pub has_go_mod : Env → Text → Bool
has_go_mod env folder = env.is_file (join folder (codes "go.mod"))

-- `findModuleRoot`, from the working directory.
unfoldable pub module_root : Env → Text
unfolding find_above
module_root env = elim (find_above (has_go_mod env) env.getwd) [ none ↦ [] | some root ↦ root ]

-- The folder under XDG_CONFIG_HOME, or under ~/.config; the error of `Expand` leaves "".
unfoldable pub xch_location : Env → Text
unfolding join text_eq
xch_location env =
    let expanded : Text = elim env.home_config [ none ↦ [] | some p ↦ p ] in
    let base = if not (text_eq env.xdg_config_home []) then env.xdg_config_home else expanded in
    join base (codes "gremlins/gremlins")

-- `defaultConfigPaths`.
unfoldable pub default_config_paths : Env → List Text
unfolding xch_location module_root text_eq
default_config_paths env =
    let globals = codes "/etc/gremlins" ∷ xch_location env ∷ [] in
    let root = module_root env in
    elim env.home_gremlins [
      | none ↦ globals
      | some home ↦
          globals ++ home ∷ (if not (text_eq root []) then root ∷ [] else []) ++ codes "." ∷ []
    ]

-- `isSpecificFile`.
unfoldable pub is_specific_file : List Text → Bool
unfolding text_eq ext
is_specific_file [] = false
is_specific_file (p ∷ []) = not (text_eq (ext p) [])
is_specific_file (p ∷ q ∷ ps) = false

-- `arePathsNotSet`.
unfoldable pub are_paths_not_set : List Text → Bool
unfolding text_eq
are_paths_not_set [] = true
are_paths_not_set (p ∷ []) = text_eq p []
are_paths_not_set (p ∷ q ∷ ps) = false

-- What `Init` tells viper: the file, if there is one, and the folders in the order of the search.
pub data InitResult : Type 0 where
  cannot_read : InitResult
  set : Option Text → List Text → InitResult

first_of : List Text → Text
first_of [] = []
first_of (p ∷ ps) = p

-- `Init`; `readable` is whether viper can read a file.
unfoldable pub init_config : Env → (Text → Bool) → List Text → InitResult
unfolding is_specific_file are_paths_not_set default_config_paths first_of
init_config env readable paths =
    if is_specific_file paths
    then if readable (first_of paths) then set (some (first_of paths)) paths else cannot_read
    else set none (if are_paths_not_set paths then default_config_paths env else paths)

-- The order of the search, by the home folder's path and the root of the module.
abbrev pub search_order : Env → Text → Option Text → List Text
search_order env home found =
    codes "/etc/gremlins"
      ∷ xch_location env
      ∷ home
      ∷ (elim found [ none ↦ [] | some root ↦ if not (text_eq root []) then root ∷ [] else [] ])
    ++ codes "." ∷ []

-- With no file given, the file is looked for in /etc/gremlins first, then under the folder of
-- XDG_CONFIG_HOME or ~/.config. Where the home folder is known, then in ~/.gremlins, then in the
-- first folder on the way up from the working directory that has a go.mod, if one has, and in the
-- working directory last of all.
init_config_default :
    (env : Env) (readable : Text → Bool) (home : Text)
    → env.home_gremlins ≡ some home
    → (found : Option Text) × FirstAbove (has_go_mod env) env.getwd found
      × (init_config env readable ([] ∷ []) ≡ set none (search_order env home found))
unfolding init_config is_specific_file are_paths_not_set default_config_paths module_root text_eq
    ext
init_config_default env readable home h = (
  find_above (has_go_mod env) env.getwd,
  find_above-FirstAbove (has_go_mod env) env.getwd,
  rw (h, default_config_paths) (ground arith),
)
