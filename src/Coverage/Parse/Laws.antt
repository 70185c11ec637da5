-- ===== src/Coverage/Parse/Laws.antt =====
-- What the profile holds after `parse`, and so which positions count as covered.
use mathlib.Core.List.{append-nil, append_assoc}
use gremlins.Prelude.{
  ◌≡◌, ◌∙◌, ◌↔◌, Bool, List, [], ◌∷◌, ◌++◌, Text, text_eq, ◌==◌, if◌then◌else◌, arith, true, false,
  inl, inr, Bool-cases,
}
use gremlins.Prelude.GoMap.{lookup, values_at, append_at, values_at-append_at}
use gremlins.Token.{Position}
use gremlins.GoModule.{GoModule}
use gremlins.Coverage.Profile.{Block, Profile, is_covered}
use gremlins.Coverage.Profile.Intervals.{WithinAny, is_covered_iff}
use gremlins.Coverage.Parse.{
  ProfileBlock, FileProfile, remove_module_from_path, add_blocks, add_profiles, parse,
}

-- The blocks that ran at least once.
abbrev pub ran : List ProfileBlock → List Block
ran [] = []
ran (b ∷ bs) = if b.count == 0 then ran bs else b.block ∷ ran bs

-- The blocks that ran, of the profiles whose file has the given name in the module.
abbrev pub ran_in : GoModule → Text → List FileProfile → List Block
ran_in m fn [] = []
ran_in m fn (p ∷ ps) =
    (if text_eq (remove_module_from_path m p.file_name) fn then ran p.blocks else [])
    ++ ran_in m fn ps

values_at-add_blocks :
    (k fn : Text) (bs : List ProfileBlock) (p : Profile)
    → values_at k (add_blocks fn bs p) ≡ values_at k p ++ (if text_eq fn k then ran bs else [])
unfolding add_blocks
values_at-add_blocks k fn [] p = ground (arith, append-nil (values_at k p))
values_at-add_blocks k fn (b ∷ bs) p = elim (Bool-cases (b.count == 0)) [
  | inl never ↦ rw never (values_at-add_blocks k fn bs p)
  | inr often ↦ rw often (
      values_at-add_blocks k fn bs (append_at fn b.block p)
      ∙ rw (values_at-append_at fn k b.block p) (regroup (text_eq fn k)))
]
  where
    regroup :
        (same : Bool)
        → (values_at k p ++ (if same then b.block ∷ [] else [])) ++ (if same then ran bs else [])
          ≡ values_at k p ++ (if same then b.block ∷ ran bs else [])
    regroup true = append_assoc (values_at k p) (b.block ∷ []) (ran bs)
    regroup false = append_assoc (values_at k p) [] []

values_at-add_profiles :
    (m : GoModule) (k : Text) (ps : List FileProfile) (p : Profile)
    → values_at k (add_profiles m ps p) ≡ values_at k p ++ ran_in m k ps
unfolding add_profiles
values_at-add_profiles m k [] p = rw append-nil
values_at-add_profiles m k (q ∷ ps) p =
    let fn = remove_module_from_path m q.file_name in
    values_at-add_profiles m k ps (add_blocks fn q.blocks p)
    ∙ simp (values_at-add_blocks k fn q.blocks p, append_assoc)

-- After `parse` a file has the blocks that ran, in the order of the report, and no others.
pub values_at-parse :
    (m : GoModule) (k : Text) (ps : List FileProfile) → values_at k (parse m ps) ≡ ran_in m k ps
unfolding parse lookup
values_at-parse m k ps = values_at-add_profiles m k ps []

-- A position is covered exactly when it lies within a block that the report counts as run, of a
-- profile whose file name, with the module's name removed, is the position's.
pub is_covered-parse :
    (m : GoModule) (ps : List FileProfile) (pos : Position)
    → (is_covered (parse m ps) pos ≡ true) ↔ WithinAny (ran_in m pos.filename ps) pos
is_covered-parse m ps pos =
    rw (← values_at-parse m pos.filename ps) (is_covered_iff (parse m ps) pos)
