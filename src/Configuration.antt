-- ===== src/Configuration.antt =====
-- internal/configuration: configuration.go, the keys, the paths of the configuration file and the
-- access to the values, and mutantenabled.go, the mutant types enabled by default.
-- Viper, the environment and the file system are parameters. The lock around viper is not modelled:
-- each `Get`, `Set` and `Reset` is one step.
pub mod Paths
pub mod Values
use gremlins.Prelude.{
  ℕ, ◌+◌, Bool, true, false, List, [], ◌∷◌, ◌++◌, Text, codes, leb, ◌&&◌, if◌then◌else◌,
}
use gremlins.Prelude.GoText.{replace_byte}
use gremlins.Mutator.{
  MutantType, type_string, arithmetic_base, conditionals_boundary, conditionals_negation,
  increment_decrement, invert_assignments, invert_bitwise, invert_bitwise_assignments,
  invert_logical, invert_loop_ctrl, invert_negatives, remove_self_assignments,
}

-- The keys of the configuration file and of the flags.
abbrev pub gremlins_silent_key : Text
gremlins_silent_key = codes "silent"

abbrev pub unleash_dry_run_key : Text
unleash_dry_run_key = codes "unleash.dry-run"

abbrev pub unleash_output_statuses_key : Text
unleash_output_statuses_key = codes "unleash.output-statuses"

abbrev pub unleash_output_key : Text
unleash_output_key = codes "unleash.output"

abbrev pub unleash_tags_key : Text
unleash_tags_key = codes "unleash.tags"

abbrev pub unleash_cover_pkg_key : Text
unleash_cover_pkg_key = codes "unleash.coverpkg"

abbrev pub unleash_workers_key : Text
unleash_workers_key = codes "unleash.workers"

abbrev pub unleash_test_cpu_key : Text
unleash_test_cpu_key = codes "unleash.test-cpu"

abbrev pub unleash_timeout_coefficient_key : Text
unleash_timeout_coefficient_key = codes "unleash.timeout-coefficient"

abbrev pub unleash_integration_mode : Text
unleash_integration_mode = codes "unleash.integration"

abbrev pub unleash_exclude_files : Text
unleash_exclude_files = codes "unleash.exclude-files"

abbrev pub unleash_diff_ref : Text
unleash_diff_ref = codes "unleash.diff"

abbrev pub unleash_threshold_efficacy_key : Text
unleash_threshold_efficacy_key = codes "unleash.threshold.efficacy"

abbrev pub unleash_threshold_m_coverage_key : Text
unleash_threshold_m_coverage_key = codes "unleash.threshold.mutant-coverage"

abbrev pub unleash_output_diff_statuses_key : Text
unleash_output_diff_statuses_key = codes "unleash.output-diff-statuses"

-- `strings.ToLower` of an ASCII text.
lower_byte : ℕ → ℕ
lower_byte c = if leb b'A' c && leb c b'Z' then c + 32 else c

unfoldable pub to_lower : Text → Text
unfolding lower_byte
to_lower [] = []
to_lower (c ∷ s) = lower_byte c ∷ to_lower s

-- The name of a mutant type in keys and flags.
unfoldable pub dashed_name : MutantType → Text
unfolding to_lower replace_byte type_string
dashed_name mt = to_lower (replace_byte b'_' b'-' (type_string mt))

-- `MutantTypeEnabledKey`.
unfoldable pub mutant_type_enabled_key : MutantType → Text
unfolding dashed_name
mutant_type_enabled_key mt = codes "mutants." ++ dashed_name mt ++ codes ".enabled"

-- `IsDefaultEnabled`, with its table `mutationEnabled`.
unfoldable pub is_default_enabled : MutantType → Bool
is_default_enabled arithmetic_base = true
is_default_enabled conditionals_boundary = true
is_default_enabled conditionals_negation = true
is_default_enabled increment_decrement = true
is_default_enabled invert_assignments = false
is_default_enabled invert_bitwise = false
is_default_enabled invert_bitwise_assignments = false
is_default_enabled invert_logical = false
is_default_enabled invert_loop_ctrl = false
is_default_enabled invert_negatives = true
is_default_enabled remove_self_assignments = false
