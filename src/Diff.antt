-- ===== src/Diff.antt =====
-- internal/diff: diff.go, the lines that a git diff adds, and parse.go, how the diff is obtained.
-- The command `git` and the parser of github.com/bluekeyes/go-gitdiff are parameters.
pub mod Lines
pub mod Files
use gremlins.Prelude.{
  ℕ, ◌+◌, ◌-◌, Bool, true, false, ◌&&◌, List, [], ◌∷◌, ◌++◌, Option, none, some, Text, codes,
  text_eq, leb, ◌==◌, if◌then◌else◌,
}
use gremlins.Prelude.GoMap.{GoMap, values_at, insert}
use gremlins.Token.{Position}

pub record Change : Type 0 where
  pub start_line : ℕ
  pub end_line : ℕ

abbrev pub Diff : Type 0
Diff = GoMap (List Change)

-- `gitdiff.TextFragment` and `gitdiff.File`, as far as the program reads them.
pub record TextFragment : Type 0 where
  pub new_position : ℕ
  pub leading_context : ℕ
  pub lines_added : ℕ

pub record DiffFile : Type 0 where
  pub new_name : Text
  pub text_fragments : List TextFragment

-- The loop of `newChanges`. `lines_added - 1` is exact, since 0 is skipped.
unfoldable pub changes_of : List TextFragment → List Change
changes_of [] = []
changes_of (f ∷ fs) =
    if f.lines_added == 0
    then changes_of fs
    else record {
      start_line = f.new_position + f.leading_context;
      end_line = f.new_position + f.leading_context + (f.lines_added - 1);
    }
      ∷ changes_of fs

-- `newChanges`.
unfoldable pub new_changes : DiffFile → Text × List Change
unfolding changes_of
new_changes f = (f.new_name, changes_of f.text_fragments)

-- The loop of `newDiff`.
unfoldable pub diff_onto : Diff → List DiffFile → Diff
unfolding new_changes
diff_onto result [] = result
diff_onto result (f ∷ fs) =
    let (name, changes) = new_changes f in diff_onto (insert name changes result) fs

unfoldable pub new_diff : List DiffFile → Diff
unfolding diff_onto
new_diff files = diff_onto [] files

unfoldable pub any_change : List Change → Position → Bool
any_change [] pos = false
any_change (c ∷ cs) pos =
    if leb c.start_line pos.line && leb pos.line c.end_line then true else any_change cs pos

-- `Diff.IsChanged`.
unfoldable pub is_changed : Diff → Position → Bool
unfolding any_change
is_changed [] pos = true
is_changed (e ∷ d) pos = any_change (values_at pos.filename (e ∷ d)) pos

-- `NewWithCmd`, by what `git diff` printed (`none`: it failed) and what the parser makes of that.
pub data DiffResult : Type 0 where
  ok : Diff → DiffResult
  git_failed parse_failed : DiffResult

unfoldable pub new_with_cmd :
    (Text → Option Text) → (Text → Option (List DiffFile)) → Text → DiffResult
unfolding new_diff text_eq
new_with_cmd git parse diff_ref = if text_eq diff_ref [] then ok [] else elim (git diff_ref) [
  | none ↦ git_failed
  | some out ↦ elim (parse out) [ none ↦ parse_failed | some files ↦ ok (new_diff files) ]
]
