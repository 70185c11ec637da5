-- ===== src/Diff/Lines.antt =====
-- Which lines count as changed, against the lines that a fragment of a diff adds.
use native.Mathlib.Decide.{dec_lt}
use gremlins.Prelude.{
  ℕ, suc, ◌+◌, ◌≤◌, ◌<◌, ◌≡◌, ◌↔◌, ◌⊎◌, inl, inr, refl, true, List, [], ◌∷◌, map, Text, text_eq,
  text_eq_iff, arith, if◌then◌else◌,
}
use gremlins.Prelude.GoMap.{lookup, insert, values_at, values_at-insert}
use gremlins.Token.{Position}
use gremlins.Diff.{
  Change, Diff, TextFragment, DiffFile, changes_of, diff_onto, new_diff, any_change, is_changed,
}

-- Some change of the list reaches over the line.
abbrev pub Reaches : List Change → ℕ → Type 0
Reaches [] line = ⊥
Reaches (c ∷ cs) line = ((c.start_line ≤ line) × (line ≤ c.end_line)) ⊎ Reaches cs line

any_change_iff :
    (cs : List Change) (pos : Position) → (any_change cs pos ≡ true) ↔ Reaches cs pos.line
unfolding any_change
any_change_iff [] pos = ground arith
any_change_iff (c ∷ cs) pos = ground (arith, any_change_iff cs pos)

-- A position is changed exactly when there is no diff, or a change of its file reaches its line.
pub is_changed_iff :
    (d : Diff) (pos : Position)
    → (is_changed d pos ≡ true) ↔ ((d ≡ []) ⊎ Reaches (values_at pos.filename d) pos.line)
unfolding is_changed lookup
is_changed_iff [] pos = ground arith
is_changed_iff (e ∷ d) pos = ground (arith, any_change_iff (values_at pos.filename (e ∷ d)) pos)

-- The changes of the last file in the list that has the name; those of `found` if none has it.
abbrev pub last_changes : Text → List Change → List DiffFile → List Change
last_changes k found [] = found
last_changes k found (f ∷ fs) =
    last_changes k (if text_eq f.new_name k then changes_of f.text_fragments else found) fs

values_at-diff_onto :
    (k : Text) (d : Diff) (fs : List DiffFile)
    → values_at k (diff_onto d fs) ≡ last_changes k (values_at k d) fs
unfolding diff_onto
values_at-diff_onto k d [] = refl
values_at-diff_onto k d (f ∷ fs) =
    rw (← values_at-insert f.new_name k (changes_of f.text_fragments) d)
      (values_at-diff_onto k (insert f.new_name (changes_of f.text_fragments) d) fs)

-- A file's changes are those of its fragments; of two files with one name the later one counts.
pub values_at-new_diff :
    (k : Text) (fs : List DiffFile) → values_at k (new_diff fs) ≡ last_changes k [] fs
unfolding new_diff lookup
values_at-new_diff k fs = values_at-diff_onto k [] fs

-- The lines of a fragment: unchanged, deleted, or added.
pub data Line : Type 0 where
  context delete add : Line

abbrev pub leading : List Line → ℕ
leading (context ∷ ls) = suc (leading ls)
leading _ = 0

abbrev pub additions : List Line → ℕ
additions [] = 0
additions (add ∷ ls) = suc (additions ls)
additions (context ∷ ls) = additions ls
additions (delete ∷ ls) = additions ls

-- What the parser says of a fragment with these lines.
pub record Describes (f : TextFragment) (ls : List Line) : Type 0 where
  pub leads : f.leading_context ≡ leading ls
  pub adds : f.lines_added ≡ additions ls

-- The line of the new file is one that the fragment adds; the fragment starts at line `at`.
abbrev pub Adds : ℕ → List Line → ℕ → Type 0
Adds at [] line = ⊥
Adds at (add ∷ ls) line = (line ≡ at) ⊎ Adds (suc at) ls line
Adds at (context ∷ ls) line = Adds (suc at) ls line
Adds at (delete ∷ ls) line = Adds at ls line

-- The additions stand together at the first change: once a line is added or deleted, no line is added
-- after an unchanged one.
abbrev pub Tail : List Line → Type 0
Tail [] = Unit {0}
Tail (add ∷ ls) = ⊥
Tail (context ∷ ls) = Tail ls
Tail (delete ∷ ls) = Tail ls

abbrev pub Middle : List Line → Type 0
Middle [] = Unit {0}
Middle (add ∷ ls) = Middle ls
Middle (delete ∷ ls) = Middle ls
Middle (context ∷ ls) = Tail ls

abbrev pub Together : List Line → Type 0
Together (context ∷ ls) = Together ls
Together ls = Middle ls

Tail-Adds : (at : ℕ) (ls : List Line) (line : ℕ) → Tail ls → ¬ Adds at ls line
Tail-Adds at [] line t h = h
Tail-Adds at (add ∷ ls) line t h = t
Tail-Adds at (context ∷ ls) line t h = Tail-Adds (suc at) ls line t h
Tail-Adds at (delete ∷ ls) line t h = Tail-Adds at ls line t h

Tail-additions : (ls : List Line) → Tail ls → additions ls ≡ 0
Tail-additions [] t = refl
Tail-additions (add ∷ ls) t = absurd t
Tail-additions (context ∷ ls) t = Tail-additions ls t
Tail-additions (delete ∷ ls) t = Tail-additions ls t

Middle-Adds :
    (at : ℕ) (ls : List Line) (line : ℕ)
    → Middle ls
    → Adds at ls line ↔ ((at ≤ line) × (line < at + additions ls))
Middle-Adds at [] line m = ground arith
Middle-Adds at (add ∷ ls) line m = ground (arith, Middle-Adds (suc at) ls line m)
Middle-Adds at (context ∷ ls) line m =
    ground (arith, Tail-Adds (suc at) ls line m, Tail-additions ls m)
Middle-Adds at (delete ∷ ls) line m = Middle-Adds at ls line m

Together-Adds :
    (at : ℕ) (ls : List Line) (line : ℕ)
    → Together ls
    → Adds at ls line ↔ ((at + leading ls ≤ line) × (line < at + leading ls + additions ls))
Together-Adds at [] line m = ground arith
Together-Adds at (add ∷ ls) line m = ground (arith, Middle-Adds at (add ∷ ls) line m)
Together-Adds at (context ∷ ls) line m = ground (arith, Together-Adds (suc at) ls line m)
Together-Adds at (delete ∷ ls) line m = ground (arith, Middle-Adds at (delete ∷ ls) line m)

-- The additions of a file's fragments, each with the lines that it describes.
abbrev pub AddsSome : List (TextFragment × List Line) → ℕ → Type 0
AddsSome [] line = ⊥
AddsSome ((f, ls) ∷ fs) line = Adds f.new_position ls line ⊎ AddsSome fs line

abbrev pub Parsed : List (TextFragment × List Line) → Type 0
Parsed [] = Unit {0}
Parsed ((f, ls) ∷ fs) = Describes f ls × Together ls × Parsed fs

Reaches-fragment :
    (f : TextFragment) (ls : List Line) (fs : List TextFragment) (line : ℕ)
    → Describes f ls
    → Together ls
    → Reaches (changes_of (f ∷ fs)) line
      ↔ (Adds f.new_position ls line ⊎ Reaches (changes_of fs) line)
unfolding changes_of
Reaches-fragment f ls fs line d t =
    ground (arith, Together-Adds f.new_position ls line t, d.leads, d.adds)

pub Reaches-fragments :
    (fs : List (TextFragment × List Line)) (line : ℕ)
    → Parsed fs
    → Reaches (changes_of (map (λ p. p.0) fs)) line ↔ AddsSome fs line
unfolding changes_of
Reaches-fragments [] line p = ((λ h. h), (λ h. h))
Reaches-fragments ((f, ls) ∷ fs) line (d, t, p) =
    ground (arith, Reaches-fragment f ls (map (λ q. q.0) fs) line d t, Reaches-fragments fs line p)

-- The diff of one file. Where no fragment adds a line after an unchanged one that follows its first change, a position in the file
-- is changed exactly when the diff adds its line, and no position of another file is.
is_changed_together :
    (name : Text) (fs : List (TextFragment × List Line)) (pos : Position)
    → Parsed fs
    → let d = new_diff (record { new_name = name; text_fragments = map (λ p. p.0) fs } ∷ []) in
      (is_changed d pos ≡ true) ↔ ((name ≡ pos.filename) × AddsSome fs pos.line)
unfolding new_diff is_changed lookup insert
is_changed_together name fs pos p =
    let cs = changes_of (map (λ q. q.0) fs) in
    ground (
      arith,
      text_eq_iff name pos.filename,
      Reaches-fragments fs pos.line p,
      any_change_iff cs pos,
      any_change_iff [] pos,
    )

additions-Tail : (ls : List Line) → additions ls ≡ 0 → Tail ls
additions-Tail [] h = tt
additions-Tail (add ∷ ls) h = absurd (omega arith)
additions-Tail (context ∷ ls) h = additions-Tail ls h
additions-Tail (delete ∷ ls) h = additions-Tail ls h

-- The last added line lies at least as far on as there are additions.
last_added :
    (at : ℕ) (ls : List Line)
    → 0 < additions ls
    → (line : ℕ) × Adds at ls line × (at + additions ls ≤ suc line)
last_added at [] h = absurd (omega arith)
last_added at (add ∷ ls) h = elim (dec_lt 0 (additions ls)) [
  | yes more ↦ let (line, a, b) = last_added (suc at) ls more in (line, inr a, omega arith)
  | no last ↦ (at, inl refl, omega arith)
]
last_added at (context ∷ ls) h =
    let (line, a, b) = last_added (suc at) ls h in (line, a, omega arith)
last_added at (delete ∷ ls) h = last_added at ls h

Middle-missed :
    (at : ℕ) (ls : List Line)
    → ¬ Middle ls
    → (line : ℕ) × Adds at ls line × (at + additions ls ≤ line)
Middle-missed at [] h = absurd (h tt)
Middle-missed at (add ∷ ls) h =
    let (line, a, b) = Middle-missed (suc at) ls h in (line, inr a, omega arith)
Middle-missed at (delete ∷ ls) h = Middle-missed at ls h
Middle-missed at (context ∷ ls) h =
    let some_added : 0 < additions ls = elim (dec_lt 0 (additions ls)) [
      | yes more ↦ more
      | no stop ↦ absurd (h (additions-Tail ls (omega arith)))
    ] in
    let (line, a, b) = last_added (suc at) ls some_added in (line, a, omega arith)

Together-missed :
    (at : ℕ) (ls : List Line)
    → ¬ Together ls
    → (line : ℕ) × Adds at ls line × (at + leading ls + additions ls ≤ line)
Together-missed at [] h = absurd (h tt)
Together-missed at (add ∷ ls) h =
    let (line, a, b) = Middle-missed at (add ∷ ls) h in (line, a, omega arith)
Together-missed at (delete ∷ ls) h =
    let (line, a, b) = Middle-missed at (delete ∷ ls) h in (line, a, omega arith)
Together-missed at (context ∷ ls) h =
    let (line, a, b) = Together-missed (suc at) ls h in (line, a, omega arith)

-- Where a line is added after an unchanged one that follows the first change of a fragment, a line
-- that the fragment adds does not count as changed.
pub changes_of_missed :
    (f : TextFragment) (ls : List Line)
    → Describes f ls
    → ¬ Together ls
    → (line : ℕ) × Adds f.new_position ls line × ¬ Reaches (changes_of (f ∷ [])) line
unfolding changes_of
changes_of_missed f ls d h =
    let (line, a, b) = Together-missed f.new_position ls h in
    (line, a, ground (arith, d.leads, d.adds))
