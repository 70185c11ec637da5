-- ===== src/Engine/Mappings/Tables.antt =====
-- The two tables of mappings.go against one another, and what they make of the single tokens.
use gremlins.Prelude.{◌≡◌, ◌≢◌, ◌↔◌, none, some, List, [], OneOf, arith}
use gremlins.Mutator.{MutantType, invert_assignments}
use gremlins.Token.{
  Token, add, sub, mul, quo, rem, and, or, xor, shl, shr, and_not, add_assign, sub_assign,
  mul_assign, quo_assign, rem_assign, and_assign, or_assign, xor_assign, shl_assign, shr_assign,
  and_not_assign, land, lor, inc, dec, eql, neq, lss, leq, gtr, geq, assign, break, continue,
}
use gremlins.Engine.Mappings.{token_mutant_type, token_mutations, mutated_token}

-- The mutant types listed for a token; none where the table has no entry.
abbrev pub listed_types : Token → List MutantType
listed_types tok = elim (token_mutant_type tok) [ some ts ↦ ts | none ↦ [] ]

listed-token_mutations :
    (mt : MutantType) (tok : Token)
    → OneOf mt (listed_types tok)
    → token_mutations mt tok ≡ some (mutated_token mt tok)
unfolding token_mutant_type mutated_token
listed-token_mutations mt tok h = ground arith

token_mutations-listed :
    (mt : MutantType) (tok : Token) → token_mutations mt tok ≢ none → OneOf mt (listed_types tok)
unfolding token_mutant_type token_mutations
token_mutations-listed mt tok h = ground arith

-- The two tables agree: a mutant type is listed for a token exactly when the table of mutations has
-- an entry for the two, the token that `Apply` writes.
pub tables_agree :
    (mt : MutantType) (tok : Token)
    → OneOf mt (listed_types tok) ↔ (token_mutations mt tok ≡ some (mutated_token mt tok))
tables_agree mt tok = (listed-token_mutations mt tok, λ e. token_mutations-listed mt tok (λ n. cc))

-- The one mutation that changes nothing is that of `%=` under INVERT_ASSIGNMENTS.
mutation_changes_token :
    (mt : MutantType) (tok t : Token)
    → token_mutations mt tok ≡ some t
    → (t ≡ tok) ↔ ((mt ≡ invert_assignments) × (tok ≡ rem_assign))
unfolding token_mutations
mutation_changes_token mt tok t h = ground arith

-- Two different types make the same token of one token only where the token is `-`.
pub same_mutation_only_sub :
    (mt mt' : MutantType) (tok t : Token)
    → mt ≢ mt'
    → token_mutations mt tok ≡ some t
    → token_mutations mt' tok ≡ some t
    → tok ≡ sub
unfolding token_mutations
same_mutation_only_sub mt mt' tok t d h h' = ground arith

-- Where the Go grammar lets a token stand: as the operator of an expression, in an assignment, in
-- `x++` and `x--`, or as a branch statement.
pub data Kind : Type 0 where
  operator assignment step branch neither : Kind

abbrev pub kind : Token → Kind
kind add = operator
kind sub = operator
kind mul = operator
kind quo = operator
kind rem = operator
kind and = operator
kind or = operator
kind xor = operator
kind shl = operator
kind shr = operator
kind and_not = operator
kind land = operator
kind lor = operator
kind eql = operator
kind neq = operator
kind lss = operator
kind leq = operator
kind gtr = operator
kind geq = operator
kind add_assign = assignment
kind sub_assign = assignment
kind mul_assign = assignment
kind quo_assign = assignment
kind rem_assign = assignment
kind and_assign = assignment
kind or_assign = assignment
kind xor_assign = assignment
kind shl_assign = assignment
kind shr_assign = assignment
kind and_not_assign = assignment
kind assign = assignment
kind inc = step
kind dec = step
kind break = branch
kind continue = branch
kind _ = neither

-- A mutated token may stand wherever the token stood: no mutation leaves the token's place in the
-- grammar.
pub mutation_keeps_kind :
    (mt : MutantType) (tok t : Token)
    → token_mutations mt tok ≡ some t
    → (kind t ≡ kind tok) × (kind t ≢ neither)
unfolding token_mutations
mutation_keeps_kind mt tok t h = ground arith
