-- ===== src/Engine/Walk/Reference.antt =====
-- The walk against a plain search that does not use `TokenMutantType`: at each node it tries all the
-- types, and looks each up in the table of mutations.
use gremlins.Prelude.{
  ℕ, ◌+◌, ◌≡◌, refl, ◌∙◌, Bool, not, ◌&&◌, List, [], ◌∷◌, Option, none, some, Text, if◌then◌else◌,
  arith, Bool-cases, inl, inr,
}
use gremlins.Token.{Token}
use gremlins.Mutator.{MutantType, types}
use gremlins.Exclusion.{is_file_excluded}
use gremlins.GoModule.{GoModule}
use gremlins.Engine.Mappings.{token_mutant_type, token_mutations}
use gremlins.Engine.Mappings.Tables.{listed_types}
use gremlins.Engine.Node.{Node, Store, NodeToken, new_token_node, node_tok}
use gremlins.Engine.TokenMutator.{TokenMutator}
use gremlins.Engine.Pool.Invariant.{count, count-append}
use gremlins.Engine.Walk.{
  CodeData, SourceFile, new_mutant, mutants_of, find_mutations, mutants_in, run_on_file, is_go_code,
  walk,
}

-- The sum of a number over mutant types, and over those of them that the table of mutations has for
-- a token.
abbrev over : (MutantType → ℕ) → List MutantType → ℕ
over f [] = 0
over f (mt ∷ mts) = f mt + over f mts

abbrev with_entry : Option Token → ℕ → ℕ
with_entry none n = 0
with_entry (some t) n = n

abbrev pub tried : (MutantType → ℕ) → Token → List MutantType → ℕ
tried f tok [] = 0
tried f tok (mt ∷ mts) = with_entry (token_mutations mt tok) (f mt) + tried f tok mts

over-listed_types :
    (f : MutantType → ℕ) (tok : Token) → over f (listed_types tok) ≡ tried f tok types
unfolding token_mutant_type token_mutations types
over-listed_types f tok = ground arith

module _ (p : TokenMutator → Bool) (mod_ : GoModule) (code : CodeData)
    (enabled : MutantType → Bool) where
  -- Whether the mutant of a type at a node counts: it passes the test, and the type is enabled.
  abbrev pub candidate : SourceFile → NodeToken → MutantType → ℕ
  candidate f n mt = if enabled mt then if p (new_mutant mod_ code f n mt) then 1 else 0 else 0

  abbrev pub search_node : SourceFile → Store → Option NodeToken → ℕ
  search_node f ast none = 0
  search_node f ast (some n) = tried (candidate f n) (node_tok n ast) types

  abbrev pub search_nodes : SourceFile → Store → List Node → ℕ
  search_nodes f ast [] = 0
  search_nodes f ast (n ∷ ns) = search_node f ast (new_token_node n) + search_nodes f ast ns

  abbrev pub search : (Text → SourceFile) → Store → List Text → ℕ
  search parse ast [] = 0
  search parse ast (path ∷ paths) =
      (if is_go_code path && not (is_file_excluded code.exclusion path)
        then search_nodes (parse path) ast (parse path).nodes
        else 0)
      + search parse ast paths

  count-mutants_of :
      (f : SourceFile) (n : NodeToken) (mts : List MutantType)
      → count p (mutants_of mod_ code enabled f n mts) ≡ over (candidate f n) mts
  unfolding mutants_of
  count-mutants_of f n [] = refl
  count-mutants_of f n (mt ∷ mts) = ground (arith, count-mutants_of f n mts)

  abbrev of_entry : SourceFile → NodeToken → Option (List MutantType) → List TokenMutator
  of_entry f n entry = elim entry [ none ↦ [] | some mts ↦ mutants_of mod_ code enabled f n mts ]

  count-of_entry :
      (f : SourceFile) (n : NodeToken) (entry : Option (List MutantType))
      → count p (of_entry f n entry)
        ≡ over (candidate f n) (elim entry [ some ts ↦ ts | none ↦ [] ])
  count-of_entry f n none = refl
  count-of_entry f n (some mts) = count-mutants_of f n mts

  count-find_mutations :
      (f : SourceFile) (ast : Store) (n : NodeToken)
      → count p (find_mutations mod_ code enabled f ast n)
        ≡ tried (candidate f n) (node_tok n ast) types
  unfolding find_mutations
  count-find_mutations f ast n =
      count-of_entry f n (token_mutant_type (node_tok n ast))
      ∙ over-listed_types (candidate f n) (node_tok n ast)

  abbrev of_node : SourceFile → Store → Option NodeToken → List TokenMutator
  of_node f ast o = elim o [ none ↦ [] | some t ↦ find_mutations mod_ code enabled f ast t ]

  count-of_node :
      (f : SourceFile) (ast : Store) (o : Option NodeToken)
      → count p (of_node f ast o) ≡ search_node f ast o
  count-of_node f ast none = refl
  count-of_node f ast (some n) = count-find_mutations f ast n

  count-mutants_in :
      (f : SourceFile) (ast : Store) (ns : List Node)
      → count p (mutants_in mod_ code enabled f ast ns) ≡ search_nodes f ast ns
  unfolding mutants_in
  count-mutants_in f ast [] = refl
  count-mutants_in f ast (n ∷ ns) =
      count-append p (of_node f ast (new_token_node n)) (mutants_in mod_ code enabled f ast ns)
      ∙ omega (arith, count-of_node f ast (new_token_node n), count-mutants_in f ast ns)

  -- The stream of mutants holds, each as often, the mutants of the plain search: in the files that the
  -- walk visits, that are Go code and no test, and that are not excluded, at every node with a token,
  -- for every enabled type for which the table of mutations has that token.
  pub count-walk :
      (parse : Text → SourceFile) (ast : Store) (paths : List Text)
      → count p (walk mod_ code enabled parse ast paths) ≡ search parse ast paths
  unfolding walk run_on_file
  count-walk parse ast [] = refl
  count-walk parse ast (path ∷ paths) =
      elim (Bool-cases (is_go_code path && not (is_file_excluded code.exclusion path))) [
        | inl wanted ↦ rw wanted (
            count-append p (run_on_file mod_ code enabled (parse path) ast)
              (walk mod_ code enabled parse ast paths)
            ∙ omega (
              arith,
              count-mutants_in (parse path) ast (parse path).nodes,
              count-walk parse ast paths,
            ))
        | inr other ↦ rw other (omega (arith, count-walk parse ast paths))
      ]
