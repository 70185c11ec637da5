-- ===== src/Engine/Walk.antt =====
-- internal/engine/engine.go: the walk over the files, and the mutants found at each node.
-- `fs.WalkDir`, go/parser and `ast.Inspect` are parameters: the paths that the walk visits, and the
-- tree of a file as its nodes in the order of the inspection, with its token fields.
pub mod Laws
pub mod Reference
use gremlins.Prelude.{
  ℕ, Bool, true, false, not, ◌&&◌, List, [], ◌∷◌, ◌++◌, Option, none, some, Text, codes, text_eq,
  if◌then◌else◌,
}
use gremlins.Prelude.GoText.{has_suffix}
use gremlins.FilePath.{ext}
use gremlins.Token.{Token, Position}
use gremlins.Mutator.{MutantType, Status, not_covered, runnable, skipped}
use gremlins.Coverage.Profile.{Profile, is_covered}
use gremlins.Diff.{Diff, is_changed}
use gremlins.Exclusion.{Rules, is_file_excluded}
use gremlins.GoModule.{GoModule}
use gremlins.Engine.PkgName.{pkg_name}
use gremlins.Engine.Mappings.{token_mutant_type}
use gremlins.Engine.Node.{Node, Store, NodeToken, new_token_node, node_tok}
use gremlins.Engine.TokenMutator.{TokenMutator, new_token_mutant, set_type, set_status}

-- `CodeData`.
pub record CodeData : Type 0 where
  pub cov : Profile
  pub diff : Diff
  pub exclusion : Rules

-- A parsed file: its name, the number of its tree, the package that it declares, the positions, its
-- nodes.
pub record SourceFile : Type 0 where
  pub name : Text
  pub file : ℕ
  pub pkg : Text
  pub positions : ℕ → Position
  pub nodes : List Node

-- `mutationStatus`.
unfoldable pub mutation_status : CodeData → Position → Status
mutation_status code pos =
    if not (is_changed code.diff pos)
    then skipped
    else if is_covered code.cov pos
    then runnable
    else not_covered

-- The body of the loop of `findMutations`: one mutant of an enabled type.
unfoldable pub new_mutant : GoModule → CodeData → SourceFile → NodeToken → MutantType → TokenMutator
unfolding mutation_status set_type set_status new_token_mutant
new_mutant mod_ code f n mt =
    set_status (mutation_status code (f.positions n.tok_pos))
      (set_type mt (new_token_mutant (pkg_name mod_ f.name f.pkg) f.positions f.file n))

unfoldable pub mutants_of :
    GoModule
    → CodeData
    → (MutantType → Bool)
    → SourceFile
    → NodeToken
    → List MutantType
    → List TokenMutator
mutants_of mod_ code enabled f n [] = []
mutants_of mod_ code enabled f n (mt ∷ mts) =
    if enabled mt
    then new_mutant mod_ code f n mt ∷ mutants_of mod_ code enabled f n mts
    else mutants_of mod_ code enabled f n mts

-- `findMutations`; what it sends to the stream is its result.
unfoldable pub find_mutations :
    GoModule → CodeData → (MutantType → Bool) → SourceFile → Store → NodeToken → List TokenMutator
unfolding mutants_of
find_mutations mod_ code enabled f ast n = elim (token_mutant_type (node_tok n ast)) [
  | none ↦ []
  | some mts ↦ mutants_of mod_ code enabled f n mts
]

-- `runOnFile`, from the parsed file on.
unfoldable pub mutants_in :
    GoModule → CodeData → (MutantType → Bool) → SourceFile → Store → List Node → List TokenMutator
mutants_in mod_ code enabled f ast [] = []
mutants_in mod_ code enabled f ast (n ∷ ns) =
    elim (new_token_node n) [ none ↦ [] | some t ↦ find_mutations mod_ code enabled f ast t ]
    ++ mutants_in mod_ code enabled f ast ns

unfoldable pub run_on_file :
    GoModule → CodeData → (MutantType → Bool) → SourceFile → Store → List TokenMutator
unfolding mutants_in
run_on_file mod_ code enabled f ast = mutants_in mod_ code enabled f ast f.nodes

-- The test of `Run` for a path.
unfoldable pub is_go_code : Text → Bool
unfolding text_eq
is_go_code path = text_eq (ext path) (codes ".go") && not (has_suffix path (codes "_test.go"))

-- The walk of `Run`: the stream of mutants, over the paths visited and the files parsed from them.
unfoldable pub walk :
    GoModule
    → CodeData
    → (MutantType → Bool)
    → (Text → SourceFile)
    → Store
    → List Text
    → List TokenMutator
unfolding is_go_code
walk mod_ code enabled parse ast [] = []
walk mod_ code enabled parse ast (path ∷ paths) =
    (if is_go_code path && not (is_file_excluded code.exclusion path)
      then run_on_file mod_ code enabled (parse path) ast
      else [])
    ++ walk mod_ code enabled parse ast paths
