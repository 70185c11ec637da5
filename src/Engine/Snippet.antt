-- ===== src/Engine/Snippet.antt =====
-- internal/engine/tokenmutator.go, `extractSnippet`: the lines around a mutation.
pub mod Laws
use gremlins.Prelude.{ℕ, ◌+◌, ◌-◌, Text, length, take, drop, ltb, if◌then◌else◌}
use gremlins.FilePath.{split, join_with}

abbrev pub newline : ℕ
newline = 10

-- `start`: a difference below 0 becomes 0, as `-` does here; then `start` is cut to `end`.
unfoldable pub snippet_end : ℕ → ℕ → ℕ → ℕ
snippet_end count target_line context_lines =
    if ltb count (target_line + context_lines) then count else target_line + context_lines

unfoldable pub snippet_start : ℕ → ℕ → ℕ → ℕ
unfolding snippet_end
snippet_start count target_line context_lines =
    let start = target_line - context_lines - 1 in
    let end = snippet_end count target_line context_lines in if ltb end start then end else start

-- `lines[start:end]` panics unless `start ≤ end ≤ len(lines)`; see Laws.
unfoldable pub extract_snippet : Text → ℕ → ℕ → Text
unfolding snippet_start snippet_end
extract_snippet content target_line context_lines =
    let lines = split newline content in
    let start = snippet_start (length lines) target_line context_lines in
    let end = snippet_end (length lines) target_line context_lines in
    join_with newline (take (end - start) (drop start lines))
