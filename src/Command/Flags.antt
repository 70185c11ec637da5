-- ===== src/Command/Flags.antt =====
-- cmd/unleash.go, cmd/gremlins.go and cmd/internal/flags/flags.go: the flags, with the keys of the
-- configuration that they are bound to. The texts of their usage are left out. The one float64 among
-- the default values is 0, so a float is a natural number here.
use gremlins.Prelude.{
  ℕ, pos, false, not, List, [], ◌∷◌, Option, none, some, Text, codes, text_eq, if◌then◌else◌,
}
use gremlins.Prelude.GoText.{replace_byte}
use gremlins.Mutator.{MutantType}
use gremlins.Configuration
use gremlins.Configuration.{dashed_name, mutant_type_enabled_key, is_default_enabled}
use gremlins.Configuration.Values.{Value, bool, string, int, float, strings}

-- `Flag`.
pub record Flag : Type 0 where
  pub name : Text
  pub cfg_key : Text
  pub shorthand : Text
  pub default_v : Value ℕ

abbrev pub flag : Text → Text → Text → Value ℕ → Flag
flag name cfg_key shorthand default_v = record {
  name = name;
  cfg_key = cfg_key;
  shorthand = shorthand;
  default_v = default_v;
}

-- The flags that `setFlagsOnCmd` lists.
unfoldable pub unleash_flags : List Flag
unleash_flags =
    flag (codes "dry-run") Configuration.unleash_dry_run_key (codes "d") (bool false)
    ∷ flag (codes "output-statuses") Configuration.unleash_output_statuses_key (codes "S")
        (string [])
    ∷ flag (codes "output-diff-statuses") Configuration.unleash_output_diff_statuses_key []
        (string [])
    ∷ flag (codes "tags") Configuration.unleash_tags_key (codes "t") (string [])
    ∷ flag (codes "coverpkg") Configuration.unleash_cover_pkg_key [] (string [])
    ∷ flag (codes "diff") Configuration.unleash_diff_ref (codes "D") (string [])
    ∷ flag (codes "output") Configuration.unleash_output_key (codes "o") (string [])
    ∷ flag (codes "integration") Configuration.unleash_integration_mode (codes "i") (bool false)
    ∷ flag (codes "exclude-files") Configuration.unleash_exclude_files (codes "E") (strings [])
    ∷ flag (codes "threshold-efficacy") Configuration.unleash_threshold_efficacy_key [] (float 0)
    ∷ flag (codes "threshold-mcover") Configuration.unleash_threshold_m_coverage_key [] (float 0)
    ∷ flag (codes "workers") Configuration.unleash_workers_key [] (int (pos 0))
    ∷ flag (codes "test-cpu") Configuration.unleash_test_cpu_key [] (int (pos 0))
    ∷ flag (codes "timeout-coefficient") Configuration.unleash_timeout_coefficient_key []
        (int (pos 0))
    ∷ []

-- The flag that `setMutantTypeFlags` makes for a mutant type.
unfoldable pub mutant_type_flag : MutantType → Flag
unfolding dashed_name mutant_type_enabled_key is_default_enabled
mutant_type_flag mt =
    flag (dashed_name mt) (mutant_type_enabled_key mt) [] (bool (is_default_enabled mt))

-- The flag of the root command.
abbrev pub silent_flag : Flag
silent_flag = flag (codes "silent") Configuration.gremlins_silent_key (codes "s") (bool false)

-- The name under which pflag looks a flag up: the function given to `SetNormalizeFunc`.
unfoldable pub normalised_name : Text → Text
unfolding replace_byte
normalised_name name = replace_byte b'_' b'-' (replace_byte b'.' b'-' name)

-- What `setFlags` does with pflag and viper: it defines the flag, with its shorthand if there is one,
-- and binds the key. `bind` fails where no flag has the name.
pub record FlagLib : Type 1 where
  pub FlagSet : Type 0
  pub define : Text → Value ℕ → FlagSet → FlagSet
  pub define_p : Text → Text → Value ℕ → FlagSet → FlagSet
  pub bind : Text → Text → FlagSet → Option FlagSet

module _ (lib : FlagLib) where
  open lib use {FlagSet, define, define_p, bind}

  -- `setBool`, `setString`, `setInt`, `setFloat64` and `setStringArray`, by the default value.
  unfoldable pub set_flag : Flag → FlagSet → FlagSet
  unfolding text_eq
  set_flag f fs =
      if not (text_eq f.shorthand [])
      then define_p f.name f.shorthand f.default_v fs
      else define f.name f.default_v fs

  -- `setFlags`.
  unfoldable pub set_flags : Flag → FlagSet → Option FlagSet
  unfolding set_flag
  set_flags f fs = bind f.cfg_key f.name (set_flag f fs)

  -- The loops over the flags: the first error ends them.
  unfoldable pub set_all : List Flag → FlagSet → Option FlagSet
  unfolding set_flags
  set_all [] fs = some fs
  set_all (f ∷ rest) fs = elim (set_flags f fs) [ none ↦ none | some fs' ↦ set_all rest fs' ]
