-- ===== src/Engine/Mappings/Meaning.antt =====
-- What the mutations of the conditionals and of the logical operators mean.
use mathlib.Core.Option
use gremlins.Prelude.{
  ◌≡◌, ◌≢◌, ◌↔◌, Ordering, Bool, true, false, not, ◌&&◌, ◌||◌, Option, none, some, arith,
}
use gremlins.Mutator.{conditionals_boundary, conditionals_negation, invert_logical}
use gremlins.Token.{Token, eql, neq, lss, leq, gtr, geq, land, lor}
use gremlins.Engine.Mappings.{token_mutations}

-- The value of a comparison of two operands, by how they compare. Floats that are NaN are left out.
abbrev pub holds : Token → Ordering → Option Bool
holds eql o = elim o [ Ordering.eq ↦ some true | _ ↦ some false ]
holds neq o = elim o [ Ordering.eq ↦ some false | _ ↦ some true ]
holds lss o = elim o [ Ordering.lt ↦ some true | _ ↦ some false ]
holds leq o = elim o [ Ordering.gt ↦ some false | _ ↦ some true ]
holds gtr o = elim o [ Ordering.gt ↦ some true | _ ↦ some false ]
holds geq o = elim o [ Ordering.lt ↦ some false | _ ↦ some true ]
holds _ o = none

-- The value of a logical operator.
abbrev pub joins : Token → Bool → Bool → Option Bool
joins land a b = some (a && b)
joins lor a b = some (a || b)
joins _ a b = none

-- A negated conditional has the opposite value, however the operands compare.
negation_negates :
    (tok t : Token) (o : Ordering)
    → token_mutations conditionals_negation tok ≡ some t
    → (holds tok o ≢ none) × (holds t o ≡ Option.map not (holds tok o))
unfolding token_mutations
negation_negates tok t o h = ground arith

-- A moved boundary changes the value exactly where the operands are equal.
pub boundary_moves :
    (tok t : Token) (o : Ordering)
    → token_mutations conditionals_boundary tok ≡ some t
    → (holds t o ≡ holds tok o) ↔ (o ≢ Ordering.eq)
unfolding token_mutations
boundary_moves tok t o h = ground arith

-- The inverted logical operator is the dual.
pub logical_dual :
    (tok t : Token) (a b : Bool)
    → token_mutations invert_logical tok ≡ some t
    → joins t a b ≡ Option.map not (joins tok (not a) (not b))
unfolding token_mutations
logical_dual tok t a b h = ground arith
