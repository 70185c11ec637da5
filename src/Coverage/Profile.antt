-- ===== src/Coverage/Profile.antt =====
-- internal/coverage/profile.go. Lines and columns are Go ints that are never negative.
pub mod Intervals
use gremlins.Prelude.{
  ℕ, Bool, true, false, ◌&&◌, List, [], ◌∷◌, Option, none, some, ltb, leb, ◌==◌, if◌then◌else◌,
}
use gremlins.Prelude.GoMap.{GoMap, lookup}
use gremlins.Token.{Position}

pub record Block : Type 0 where
  pub start_line : ℕ
  pub start_col : ℕ
  pub end_line : ℕ
  pub end_col : ℕ

abbrev pub Profile : Type 0
Profile = GoMap (List Block)

is_single_line : Block → Bool
is_single_line b = b.start_line == b.end_line

is_multi_line : Block → Bool
is_multi_line b = ltb b.start_line b.end_line

is_on_first_line : Block → Position → Bool
is_on_first_line b pos = pos.line == b.start_line

is_on_last_line : Block → Position → Bool
is_on_last_line b pos = pos.line == b.end_line

is_between_lines : Block → Position → Bool
is_between_lines b pos = ltb b.start_line pos.line && ltb pos.line b.end_line

is_single_line_col_covered : Block → Position → Bool
is_single_line_col_covered b pos = leb b.start_col pos.column && leb pos.column b.end_col

is_covered_to_end_of_line : Block → Position → Bool
is_covered_to_end_of_line b pos = leb b.start_col pos.column

is_covered_from_start_of_line : Block → Position → Bool
is_covered_from_start_of_line b pos = leb pos.column b.end_col

unfoldable pub is_position_covered : Block → Position → Bool
unfolding is_single_line is_multi_line is_on_first_line is_on_last_line is_single_line_col_covered
    is_covered_to_end_of_line is_covered_from_start_of_line
is_position_covered b pos =
    if is_single_line b && is_on_first_line b pos && is_single_line_col_covered b pos
    then true
    else if is_multi_line b && is_on_first_line b pos && is_covered_to_end_of_line b pos
    then true
    else if is_multi_line b && is_on_last_line b pos && is_covered_from_start_of_line b pos
    then true
    else false

-- The loop of `IsCovered` over the blocks of a file.
unfoldable pub any_covers : List Block → Position → Bool
unfolding is_position_covered is_between_lines
any_covers [] pos = false
any_covers (b ∷ bs) pos =
    if is_between_lines b pos
    then true
    else if is_position_covered b pos
    then true
    else any_covers bs pos

-- `Profile.IsCovered`.
unfoldable pub is_covered : Profile → Position → Bool
unfolding any_covers
is_covered p pos = elim (lookup pos.filename p) [
  | none ↦ false
  | some blocks ↦ any_covers blocks pos
]
