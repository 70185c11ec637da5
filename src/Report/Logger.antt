-- ===== src/Report/Logger.antt =====
-- internal/report/logger.go: which mutants are logged, and for which the diff is printed.
-- A `Filter`, a Go map of statuses to nothing, is the list of its keys; the nil map is `none`. The
-- letters are read as bytes: a letter outside ASCII is an invalid one either way.
pub mod Shown
use gremlins.Prelude.{
  ℕ, Bool, true, false, List, [], ◌∷◌, ◌++◌, Option, none, some, Text, text_eq, ◌==◌, if◌then◌else◌,
}
use gremlins.Mutator.{
  Mutant, Status, Status-discrete, not_covered, runnable, skipped, lived, killed, not_viable,
  timed_out,
}

-- The switch of `ParseFilter`, from the letters l, c, t, k, v, s, r.
unfoldable pub filter_letter : ℕ → Option Status
filter_letter c =
    if c == 108
    then some lived
    else if c == 99
    then some not_covered
    else if c == 116
    then some timed_out
    else if c == 107
    then some killed
    else if c == 118
    then some not_viable
    else if c == 115
    then some skipped
    else if c == 114
    then some runnable
    else none

-- The switch of `ParseDiffFilter`, from the letters l, k.
unfoldable pub diff_letter : ℕ → Option Status
diff_letter c = if c == 108 then some lived else if c == 107 then some killed else none

-- The loop over the letters; a letter that the switch does not know is an error.
unfoldable pub parse_letters : (ℕ → Option Status) → Text → Option (List Status)
parse_letters read [] = some []
parse_letters read (c ∷ s) =
    let rest = parse_letters read s in
    elim (read c) [ none ↦ none | some st ↦ elim rest [ none ↦ none | some sts ↦ some (st ∷ sts) ] ]

pub data Filter : Type 0 where
  nil : Filter
  statuses : List Status → Filter

pub data ParseResult : Type 0 where
  parsed : Filter → ParseResult
  invalid : ParseResult

unfoldable pub result_of : Option (List Status) → ParseResult
result_of none = invalid
result_of (some sts) = parsed (statuses sts)

-- `ParseFilter` and `ParseDiffFilter`, by their switch.
unfoldable pub parse_by : (ℕ → Option Status) → Text → ParseResult
parse_by read [] = parsed nil
parse_by read (c ∷ s) = result_of (parse_letters read (c ∷ s))

-- The filter of a result: the nil map beside an error.
unfoldable pub filter_of : ParseResult → Filter
filter_of (parsed f) = f
filter_of invalid = nil

pub record MutantLogger : Type 0 where
  pub filter : Filter
  pub diff_filter : Filter

-- `NewLogger`, from the two values of the configuration; it only logs an error.
unfoldable pub new_logger : Text → Text → MutantLogger
new_logger output_statuses diff_statuses = record {
  filter = filter_of (parse_by filter_letter output_statuses);
  diff_filter = filter_of (parse_by diff_letter diff_statuses);
}

unfoldable pub has_key : Status → List Status → Bool
has_key st [] = false
has_key st (k ∷ ks) = elim (Status-discrete st k) [ yes _ ↦ true | no _ ↦ has_key st ks ]

-- Whether a mutant passes `Filter`, which is not asked if it is nil.
unfoldable pub passes : Filter → Status → Bool
passes nil st = true
passes (statuses sts) st = has_key st sts

-- Whether a status is a key of `DiffFilter`; a nil map has none.
unfoldable pub is_key : Filter → Status → Bool
is_key nil st = false
is_key (statuses sts) st = has_key st sts

-- The calls of `Mutant` and `MutantDiff`.
pub data Call : Type 0 where
  print_mutant print_diff : Mutant → Call

-- `MutantLogger.Mutant`.
unfoldable pub log_mutant : MutantLogger → Mutant → List Call
log_mutant l m =
    if passes l.filter m.status
    then print_mutant m ∷ (if is_key l.diff_filter m.status then print_diff m ∷ [] else [])
    else []
