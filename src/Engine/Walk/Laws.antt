-- ===== src/Engine/Walk/Laws.antt =====
-- Which mutants the walk finds, and with which status.
use gremlins.Prelude.{
  ◌≡◌, ◌≢◌, ◌↔◌, ◌⊎◌, inl, inr, refl, ap, Bool, true, false, not, ◌&&◌, List, [], ◌∷◌, ◌++◌, none,
  Text, map, OneOf, if◌then◌else◌, arith, Bool-cases, Option-cases,
}
use gremlins.Token.{Position}
use gremlins.Mutator.{MutantType, not_covered, runnable, skipped}
use gremlins.Coverage.Profile.{is_covered}
use gremlins.Diff.{is_changed}
use gremlins.Exclusion.{is_file_excluded}
use gremlins.GoModule.{GoModule}
use gremlins.Engine.Mappings.{token_mutant_type, token_mutations}
use gremlins.Engine.Mappings.Tables.{listed_types, tables_agree}
use gremlins.Engine.Node.{Node, Store, NodeToken, new_token_node, node_tok}
use gremlins.Engine.TokenMutator.{TokenMutator, position}
use gremlins.Engine.Walk.{
  CodeData, SourceFile, mutation_status, new_mutant, mutants_of, find_mutations, mutants_in,
  run_on_file, is_go_code, walk,
}

-- A mutant is skipped exactly when its line is not changed, covered or not; on a changed line it is
-- runnable exactly when it is covered.
pub mutation_status_iff :
    (code : CodeData) (pos : Position)
    → let changed = is_changed code.diff pos ≡ true in
      let covered = is_covered code.cov pos ≡ true in
      ((mutation_status code pos ≡ skipped) ↔ (¬ changed))
      × ((mutation_status code pos ≡ runnable) ↔ (changed × covered))
      × ((mutation_status code pos ≡ not_covered) ↔ (changed × (¬ covered)))
unfolding mutation_status
mutation_status_iff code pos = ground arith

-- The types of a list that are enabled.
abbrev pub enabled_of : (MutantType → Bool) → List MutantType → List MutantType
enabled_of enabled [] = []
enabled_of enabled (mt ∷ mts) =
    if enabled mt then mt ∷ enabled_of enabled mts else enabled_of enabled mts

mutants_of_types :
    (mod_ : GoModule) (code : CodeData) (enabled : MutantType → Bool) (f : SourceFile)
    (n : NodeToken) (mts : List MutantType)
    → mutants_of mod_ code enabled f n mts ≡ map (new_mutant mod_ code f n) (enabled_of enabled mts)
unfolding mutants_of
mutants_of_types mod_ code enabled f n [] = refl
mutants_of_types mod_ code enabled f n (mt ∷ mts) = elim (Bool-cases (enabled mt)) [
  | inl on ↦
      rw on (ap (◌∷◌ (new_mutant mod_ code f n mt)) (mutants_of_types mod_ code enabled f n mts))
  | inr off ↦ rw off (mutants_of_types mod_ code enabled f n mts)
]

-- At a node there is one mutant for each enabled type that is listed for its token, in that order.
pub find_mutations_types :
    (mod_ : GoModule) (code : CodeData) (enabled : MutantType → Bool) (f : SourceFile) (ast : Store)
    (n : NodeToken)
    → find_mutations mod_ code enabled f ast n
      ≡ map (new_mutant mod_ code f n) (enabled_of enabled (listed_types (node_tok n ast)))
unfolding find_mutations
find_mutations_types mod_ code enabled f ast n =
    elim (Option-cases (token_mutant_type (node_tok n ast))) [
      | inl e ↦ rw (e, find_mutations, listed_types) refl
      | inr (mts, e) ↦
          rw (e, find_mutations, listed_types) (mutants_of_types mod_ code enabled f n mts)
    ]

-- All the mutants of a list have a property.
abbrev pub All : (TokenMutator → Type 0) → List TokenMutator → Type 0
All P [] = Unit {0}
All P (m ∷ ms) = P m × All P ms

-- What holds of a mutant of the stream before it is tested.
pub record IsFound (code : CodeData) (enabled : MutantType → Bool) (ast : Store) (m : TokenMutator)
    : Type 0 where
  pub is_enabled : enabled m.mutant_type ≡ true
  pub is_mutable : token_mutations m.mutant_type (node_tok m.token_node ast) ≢ none
  pub has_status : m.status ≡ mutation_status code (position m)

All-append :
    (P : TokenMutator → Type 0) (ms ns : List TokenMutator) → All P ms → All P ns → All P (ms ++ ns)
All-append P [] ns h k = k
All-append P (m ∷ ms) ns h k = (h.0, All-append P ms ns h.1 k)

module _ (mod_ : GoModule) (code : CodeData) (enabled : MutantType → Bool) (ast : Store) where
  mutants_of-IsFound :
      (f : SourceFile) (n : NodeToken) (mts : List MutantType)
      → ((mt : MutantType) → OneOf mt mts → token_mutations mt (node_tok n ast) ≢ none)
      → All (IsFound code enabled ast) (mutants_of mod_ code enabled f n mts)
  unfolding mutants_of new_mutant
  mutants_of-IsFound f n [] h = tt
  mutants_of-IsFound f n (mt ∷ mts) h = elim (Bool-cases (enabled mt)) [
    | inl on ↦ rw on (
      record { is_enabled = on; is_mutable = h mt (inl refl); has_status = refl },
      mutants_of-IsFound f n mts (λ t k. h t (inr k)),
    )
    | inr off ↦ rw off (mutants_of-IsFound f n mts (λ t k. h t (inr k)))
  ]

  find_mutations-IsFound :
      (f : SourceFile) (n : NodeToken)
      → All (IsFound code enabled ast) (find_mutations mod_ code enabled f ast n)
  unfolding find_mutations
  find_mutations-IsFound f n = elim (Option-cases (token_mutant_type (node_tok n ast))) [
    | inl e ↦ rw (e, find_mutations) tt
    | inr (mts, e) ↦
        rw (e, find_mutations)
          (mutants_of-IsFound f n mts (λ mt k none_there.
            let there = (tables_agree mt (node_tok n ast)).0 (rw (e, listed_types) k) in cc))
  ]

  mutants_in-IsFound :
      (f : SourceFile) (ns : List Node)
      → All (IsFound code enabled ast) (mutants_in mod_ code enabled f ast ns)
  unfolding mutants_in
  mutants_in-IsFound f [] = tt
  mutants_in-IsFound f (n ∷ ns) = elim (Option-cases (new_token_node n)) [
    | inl e ↦ rw (e, mutants_in) (mutants_in-IsFound f ns)
    | inr (t, e) ↦
        rw (e, mutants_in)
          (All-append (IsFound code enabled ast) _ _ (find_mutations-IsFound f t)
            (mutants_in-IsFound f ns))
  ]

  -- Every mutant of the stream is of an enabled type, has a mutation in the table for its token, and
  -- has the status of its position.
  walk-IsFound :
      (parse : Text → SourceFile) (paths : List Text)
      → All (IsFound code enabled ast) (walk mod_ code enabled parse ast paths)
  unfolding walk run_on_file
  walk-IsFound parse [] = tt
  walk-IsFound parse (path ∷ paths) =
      All-append (IsFound code enabled ast) _ _
        (visited (is_go_code path && not (is_file_excluded code.exclusion path)))
        (walk-IsFound parse paths)
    where
      visited :
          (b : Bool)
          → All
              (IsFound code enabled ast)
              (if b then run_on_file mod_ code enabled (parse path) ast else [])
      visited true = mutants_in-IsFound (parse path) (parse path).nodes
      visited false = tt

  -- A file whose path does not end in .go, ends in _test.go, or is excluded has no mutant.
  pub walk_left_out :
      (parse : Text → SourceFile) (path : Text) (paths : List Text)
      → (is_go_code path ≡ false) ⊎ (is_file_excluded code.exclusion path ≡ true)
      → walk mod_ code enabled parse ast (path ∷ paths) ≡ walk mod_ code enabled parse ast paths
  unfolding walk
  walk_left_out parse path paths h = ground arith
