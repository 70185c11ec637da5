-- ===== src/Report/Lines.antt =====
-- internal/report/report.go: the lines that `Mutant` and `MutantDiff` log.
-- Colours, the text of numbers and durations, and github.com/aymanbagabas/go-udiff are parameters.
use gremlins.Prelude.{
  ℕ, zero, suc, ◌+◌, ◌-◌, ◌≡◌, refl, Bool, true, false, ◌||◌, List, [], ◌∷◌, ◌++◌, Option, none,
  some, Text, codes, text_eq, length, leb, if◌then◌else◌, arith,
}
use gremlins.Prelude.GoText.{has_prefix, contains}
use gremlins.FilePath.{split}
use gremlins.Token.{Position}
use gremlins.Mutator.{
  Mutant, Status, status_string, type_string, not_covered, runnable, skipped, lived, killed,
  not_viable, timed_out,
}

-- The colours, and what `fmt` and go/token make of numbers and positions.
pub record Style : Type 0 where
  pub fg_red : Text → Text
  pub fg_green : Text → Text
  pub fg_hi_green : Text → Text
  pub fg_hi_yellow : Text → Text
  pub fg_hi_black : Text → Text
  pub position_text : Position → Text

abbrev space : ℕ
space = b' '

spaces : ℕ → Text
spaces zero = []
spaces (suc n) = space ∷ spaces n

-- `padding`.
unfoldable pub padding : Status → Text
unfolding spaces status_string
padding s = spaces (12 - length (status_string s))

-- The coloured status.
unfoldable pub status_text : Style → Status → Text
unfolding status_string
status_text style killed = style.fg_hi_green (status_string killed)
status_text style runnable = style.fg_hi_green (status_string runnable)
status_text style lived = style.fg_red (status_string lived)
status_text style not_covered = style.fg_hi_yellow (status_string not_covered)
status_text style timed_out = style.fg_green (status_string timed_out)
status_text style not_viable = style.fg_hi_black (status_string not_viable)
status_text style skipped = style.fg_hi_black (status_string skipped)

-- The line of `Mutant`.
unfoldable pub mutant_line : Style → Mutant → Text
unfolding padding status_text type_string
mutant_line style m =
    padding m.status
    ++ (status_text style m.status
        ++ (codes " "
            ++ (type_string m.mutant_type
                ++ (codes " at " ++ (style.position_text m.position ++ codes "\n")))))

-- The lines of the diff that `generateDiff` leaves out.
unfoldable pub is_left_out : Text → Bool
unfolding has_prefix contains text_eq
is_left_out line =
    text_eq line []
    || has_prefix line (codes "---")
    || has_prefix line (codes "+++")
    || has_prefix line (codes "@@")
    || contains line (codes "No newline at end of file")

unfoldable pub coloured : Style → Text → Text
unfolding has_prefix
coloured style line =
    if has_prefix line (codes "-")
    then style.fg_red line
    else if has_prefix line (codes "+")
    then style.fg_green line
    else style.fg_hi_black line

-- The loop of `generateDiff`.
unfoldable pub diff_lines : Style → List Text → List Text
unfolding is_left_out coloured
diff_lines style [] = []
diff_lines style (line ∷ lines) =
    if is_left_out line
    then diff_lines style lines
    else coloured style line ∷ diff_lines style lines

is_empty : Text → Bool
is_empty [] = true
is_empty (c ∷ s) = false

-- `generateDiff`, by what the diff library makes of the two snippets; `none` is its error.
unfoldable pub generate_diff : Style → (Text → Text → Option Text) → Mutant → Option (List Text)
unfolding diff_lines is_empty split
generate_diff style to_unified m =
    if is_empty m.orig_snippet || is_empty m.mutated_snippet
    then some []
    else elim (to_unified m.orig_snippet m.mutated_snippet) [
      | none ↦ none
      | some text ↦
          let lines = split b'\n' text in
          some (if leb (length lines) 3 then [] else diff_lines style lines)
    ]

-- The lines of `MutantDiff`; `none` is its error, which is logged.
padded : Status → List Text → List Text
unfolding padding
padded s [] = []
padded s (line ∷ lines) = (padding s ++ line ++ codes "\n") ∷ padded s lines

unfoldable pub mutant_diff : Style → (Text → Text → Option Text) → Mutant → Option (List Text)
unfolding generate_diff padded
mutant_diff style to_unified m = elim (generate_diff style to_unified m) [
  | none ↦ none
  | some lines ↦ some (padded m.status lines)
]

length-spaces : (n : ℕ) → length (spaces n) ≡ n
unfolding spaces
length-spaces zero = refl
length-spaces (suc n) = omega (arith, length-spaces n)

-- The padding of a status and its name fill the same twelve columns for every status.
pub padding_fills : (s : Status) → length (padding s) + length (status_string s) ≡ 12
unfolding padding status_string
padding_fills lived = refl
padding_fills s = refl

-- A removed line that itself starts with two dashes is left out of the diff, like the header.
pub removed_dashes_hidden :
    (style : Style) (s : Text) (lines : List Text)
    → diff_lines style ((codes "-" ++ (codes "--" ++ s)) ∷ lines) ≡ diff_lines style lines
unfolding diff_lines is_left_out has_prefix
removed_dashes_hidden style s lines = refl
