-- ===== src/Engine/Snippet/Laws.antt =====
-- The slice of `extractSnippet`.
use gremlins.Prelude.{ℕ, ◌+◌, ◌-◌, ◌*◌, ◌≤◌, ◌<◌, arith}
use gremlins.Engine.Snippet.{snippet_start, snippet_end}

-- The slice never panics: its bounds are in order and within the lines, wherever the target is. It
-- has at most one line and twice the context.
snippet_bounds :
    (count target context : ℕ)
    → (snippet_start count target context ≤ snippet_end count target context)
      × (snippet_end count target context ≤ count)
      × (snippet_end count target context - snippet_start count target context ≤ 2 * context + 1)
unfolding snippet_start snippet_end
snippet_bounds count target context = (ground arith, ground arith, ground arith)

-- Every line of the text (from 1) that is no further from the target than the context is in the
-- slice; so is the target, if it is a line of the text.
pub snippet_has_line :
    (count target context line : ℕ)
    → 1 ≤ line
    → line ≤ count
    → target ≤ line + context
    → line ≤ target + context
    → (snippet_start count target context < line) × (line ≤ snippet_end count target context)
unfolding snippet_start snippet_end
snippet_has_line count target context line a b c d = ground arith
