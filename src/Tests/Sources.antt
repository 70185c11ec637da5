-- ===== src/Tests/Sources.antt =====
-- Tokens, coverage, diffs, exclusions and the walk at small inputs.
use gremlins.Prelude.{
  Bool, ℕ, ◌≡◌, ◌↔◌, inl, inr, refl, true, List, [], ◌∷◌, map, Option, none, some, Text, codes,
  text_eq,
}
use gremlins.Token.{sub}
use gremlins.Mutator.{MutantType, arithmetic_base}
use gremlins.Coverage.Profile.{Block, Profile, is_covered}
use gremlins.Coverage.Profile.Intervals.{WithinAny}
use gremlins.Coverage.Parse.{FileProfile, parse}
use gremlins.Coverage.Parse.Laws.{ran_in, is_covered-parse}
use gremlins.Diff.{TextFragment, DiffFile, is_changed, new_diff, changes_of}
use gremlins.Diff.Lines.{
  Line, context, delete, add as added, Adds, AddsSome, Reaches, changes_of_missed,
}
use gremlins.Diff.Files.{Described, file_of, last_fragments, is_changed-new_diff}
use gremlins.Exclusion.{Rule, new}
use gremlins.Exclusion.Laws.{Compiled, new-Compiled}
use gremlins.Engine.Mappings.{token_mutant_type, token_mutations, mutated_token}
use gremlins.Engine.Mappings.Tables.{tables_agree}
use gremlins.Engine.Node.{NodeToken, binary_expr}
use gremlins.Engine.Walk.{CodeData, SourceFile, walk}
use gremlins.Engine.Walk.Reference.{search, count-walk}
use gremlins.Engine.Pool.Invariant.{count}
use gremlins.Engine.TokenMutator.{TokenMutator}
use gremlins.Tests.Toy.{at, toy_module, toy_ast}

tables_agree_example :
    token_mutations arithmetic_base sub ≡ some (mutated_token arithmetic_base sub)
unfolding token_mutant_type
tables_agree_example = (tables_agree arithmetic_base sub).0 (inr (inl refl))

abbrev pub block : Block
block = record { start_line = 2; start_col = 4; end_line = 5; end_col = 1 }

abbrev pub small_profile : Profile
small_profile = (codes "a.go", block ∷ []) ∷ []

abbrev pub profiles : List FileProfile
profiles =
    record { file_name = codes "m/a.go"; blocks = record { block = block; count = 2 } ∷ [] } ∷ []

is_covered-parse_example :
    (is_covered (parse toy_module profiles) (at 3 1) ≡ true)
    ↔ WithinAny (ran_in toy_module (codes "a.go") profiles) (at 3 1)
is_covered-parse_example = is_covered-parse toy_module profiles (at 3 1)

-- One unchanged line, then two added ones.
abbrev fragment : TextFragment
fragment = record { new_position = 4; leading_context = 1; lines_added = 2 }

abbrev two_added : List Line
two_added = context ∷ added ∷ delete ∷ added ∷ context ∷ []

abbrev diff_file : DiffFile
diff_file = record { new_name = codes "a.go"; text_fragments = fragment ∷ [] }

-- A second file of the diff, with no fragment.
abbrev described : Described
described = (codes "a.go", (fragment, two_added) ∷ [])

is_changed-new_diff_example :
    (is_changed (new_diff (map file_of (described ∷ (codes "b.go", []) ∷ []))) (at 6 1) ≡ true)
    ↔ AddsSome (last_fragments (codes "a.go") [] (described ∷ (codes "b.go", []) ∷ [])) 6
is_changed-new_diff_example =
    is_changed-new_diff described ((codes "b.go", []) ∷ []) (at 6 1)
      ((record { leads = refl; adds = refl }, tt, tt), (tt, tt))

changes_of_missed_example :
    (line : ℕ) × Adds 4 (context ∷ added ∷ context ∷ added ∷ []) line
    × ¬ Reaches (changes_of (fragment ∷ [])) line
changes_of_missed_example =
    changes_of_missed fragment (context ∷ added ∷ context ∷ added ∷ [])
      (record { leads = refl; adds = refl }) (λ h. h)

-- An expression that matches its own text only; the empty one does not compile.
abbrev exact : Text → Option Rule
exact [] = none
exact (c ∷ s) = some (text_eq (c ∷ s))

abbrev pub code : CodeData
code = record { cov = small_profile; diff = []; exclusion = [] }

abbrev pub source : Text → SourceFile
source path = record {
  name = path;
  file = 0;
  pkg = codes "m";
  positions = λ p. at p 1;
  nodes = binary_expr 1 3 ∷ [];
}

abbrev pub minus : NodeToken
minus = record { tok = 1; tok_pos = 3 }

new-Compiled_example : Compiled exact (codes "a.go" ∷ [] ∷ []) (new exact (codes "a.go" ∷ [] ∷ []))
new-Compiled_example = new-Compiled exact (codes "a.go" ∷ [] ∷ [])

abbrev any_mutant : TokenMutator → Bool
any_mutant m = true

abbrev all_types : MutantType → Bool
all_types mt = true

count-walk_example :
    count any_mutant
      (walk toy_module code all_types source toy_ast (codes "a.go" ∷ codes "a_test.go" ∷ []))
    ≡ search any_mutant toy_module code all_types source toy_ast
        (codes "a.go" ∷ codes "a_test.go" ∷ [])
count-walk_example =
    count-walk any_mutant toy_module code all_types source toy_ast
      (codes "a.go" ∷ codes "a_test.go" ∷ [])
