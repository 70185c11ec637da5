-- ===== src/Diff/Files.antt =====
-- Which positions count as changed in a diff of several files.
use gremlins.Prelude.{
  Bool, ◌≡◌, ◌≢◌, ◌↔◌, inl, inr, refl, ap, ◌∙◌, true, false, List, [], ◌∷◌, map, Text, text_eq,
  arith, Bool-cases, if◌then◌else◌,
}
use gremlins.Prelude.GoMap.{insert, values_at}
use gremlins.Token.{Position}
use gremlins.Diff.{
  Diff, Change, TextFragment, DiffFile, changes_of, diff_onto, new_diff, is_changed,
}
use gremlins.Diff.Lines.{
  Line, Parsed, AddsSome, Reaches, Reaches-fragments, is_changed_iff, last_changes,
  values_at-new_diff,
}

-- A file of a diff: its new name, and its fragments with the lines that they describe.
abbrev pub Described : Type 0
Described = Text × List (TextFragment × List Line)

abbrev pub file_of : Described → DiffFile
file_of (name, fs) = record { new_name = name; text_fragments = map (λ p. p.0) fs }

abbrev pub AllParsed : List Described → Type 0
AllParsed [] = Unit {0}
AllParsed ((name, fs) ∷ files) = Parsed fs × AllParsed files

-- The fragments of the last file with a name; those of `found` if none has it.
abbrev pub last_fragments :
    Text → List (TextFragment × List Line) → List Described → List (TextFragment × List Line)
last_fragments k found [] = found
last_fragments k found ((name, fs) ∷ files) =
    last_fragments k (if text_eq name k then fs else found) files

changes_of-if :
    (b : Bool) (fs gs : List (TextFragment × List Line))
    → (if b then changes_of (map (λ p. p.0) fs) else changes_of (map (λ p. p.0) gs))
      ≡ changes_of (map (λ p. p.0) (if b then fs else gs))
changes_of-if true fs gs = refl
changes_of-if false fs gs = refl

last_changes-last_fragments :
    (k : Text) (found : List (TextFragment × List Line)) (files : List Described)
    → last_changes k (changes_of (map (λ p. p.0) found)) (map file_of files)
      ≡ changes_of (map (λ p. p.0) (last_fragments k found files))
last_changes-last_fragments k found [] = refl
last_changes-last_fragments k found ((name, fs) ∷ files) =
    ap (λ (cs : List Change). last_changes k cs (map file_of files))
      (changes_of-if (text_eq name k) fs found)
    ∙ last_changes-last_fragments k (if text_eq name k then fs else found) files

last_fragments-Parsed :
    (k : Text) (found : List (TextFragment × List Line)) (files : List Described)
    → Parsed found
    → AllParsed files
    → Parsed (last_fragments k found files)
last_fragments-Parsed k found [] p q = p
last_fragments-Parsed k found ((name, fs) ∷ files) p (r, q) = elim (Bool-cases (text_eq name k)) [
  | inl same ↦ rw same (last_fragments-Parsed k fs files r q)
  | inr other ↦ rw other (last_fragments-Parsed k found files p q)
]

insert_some : (k : Text) (cs : List Change) (d : Diff) → insert k cs d ≢ []
unfolding insert
insert_some k cs [] h = cc
insert_some k cs ((j, w) ∷ d) h = ground arith

diff_onto_some : (d : Diff) (fs : List DiffFile) → d ≢ [] → diff_onto d fs ≢ []
unfolding diff_onto
diff_onto_some d [] n = n
diff_onto_some d (f ∷ fs) n =
    diff_onto_some (insert f.new_name (changes_of f.text_fragments) d) fs
      (insert_some f.new_name (changes_of f.text_fragments) d)

new_diff_some : (f : DiffFile) (fs : List DiffFile) → new_diff (f ∷ fs) ≢ []
unfolding new_diff diff_onto
new_diff_some f fs =
    diff_onto_some (insert f.new_name (changes_of f.text_fragments) []) fs
      (insert_some f.new_name (changes_of f.text_fragments) [])

-- The diff of some files, where no fragment adds a line after an unchanged one that follows the first
-- line it adds or deletes: a position is changed exactly when the last file that has its name adds its
-- line. With no such file it is not.
pub is_changed-new_diff :
    (file : Described) (files : List Described) (pos : Position)
    → AllParsed (file ∷ files)
    → (is_changed (new_diff (map file_of (file ∷ files))) pos ≡ true)
      ↔ AddsSome (last_fragments pos.filename [] (file ∷ files)) pos.line
unfolding changes_of
is_changed-new_diff file files pos p =
    let fs = last_fragments pos.filename [] (file ∷ files) in
    let d = new_diff (map file_of (file ∷ files)) in
    let reach : Reaches (values_at pos.filename d) pos.line ↔ AddsSome fs pos.line =
      rw
        (
          values_at-new_diff pos.filename (map file_of (file ∷ files)),
          last_changes-last_fragments pos.filename [] (file ∷ files),
        )
        (Reaches-fragments fs pos.line
          (last_fragments-Parsed pos.filename [] (file ∷ files) tt p)) in
    let changed = is_changed_iff d pos in
    (
      λ h. elim (changed.0 h) [
        | inl none_ ↦ absurd (new_diff_some (file_of file) (map file_of files) none_)
        | inr reached ↦ reach.0 reached
      ],
      λ h. changed.1 (inr (reach.1 h)),
    )
