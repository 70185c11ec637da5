-- ===== src/Engine/Mappings.antt =====
-- internal/engine/mappings.go: which mutant types apply to a token, and what each makes of it.
-- A Go map is a function into `Option`; what the map lacks is `none`.
pub mod Tables
pub mod Meaning
use gremlins.Prelude.{List, [], ◌∷◌, Option, none, some}
use gremlins.Mutator.{
  MutantType, arithmetic_base, conditionals_boundary, conditionals_negation, increment_decrement,
  invert_assignments, invert_bitwise, invert_bitwise_assignments, invert_logical, invert_loop_ctrl,
  invert_negatives, remove_self_assignments,
}
use gremlins.Token.{
  Token, illegal, add, sub, mul, quo, rem, and, or, xor, shl, shr, and_not, add_assign, sub_assign,
  mul_assign, quo_assign, rem_assign, and_assign, or_assign, xor_assign, shl_assign, shr_assign,
  and_not_assign, land, lor, inc, dec, eql, neq, lss, leq, gtr, geq, assign, break, continue,
}

-- `TokenMutantType[tok]`.
unfoldable pub token_mutant_type : Token → Option (List MutantType)
token_mutant_type add = some (arithmetic_base ∷ [])
token_mutant_type add_assign = some (invert_assignments ∷ remove_self_assignments ∷ [])
token_mutant_type and = some (invert_bitwise ∷ [])
token_mutant_type and_assign = some (remove_self_assignments ∷ invert_bitwise_assignments ∷ [])
token_mutant_type and_not = some (invert_bitwise ∷ [])
token_mutant_type and_not_assign = some (remove_self_assignments ∷ invert_bitwise_assignments ∷ [])
token_mutant_type break = some (invert_loop_ctrl ∷ [])
token_mutant_type continue = some (invert_loop_ctrl ∷ [])
token_mutant_type dec = some (increment_decrement ∷ [])
token_mutant_type eql = some (conditionals_negation ∷ [])
token_mutant_type geq = some (conditionals_boundary ∷ conditionals_negation ∷ [])
token_mutant_type gtr = some (conditionals_boundary ∷ conditionals_negation ∷ [])
token_mutant_type inc = some (increment_decrement ∷ [])
token_mutant_type land = some (invert_logical ∷ [])
token_mutant_type leq = some (conditionals_boundary ∷ conditionals_negation ∷ [])
token_mutant_type lor = some (invert_logical ∷ [])
token_mutant_type lss = some (conditionals_boundary ∷ conditionals_negation ∷ [])
token_mutant_type mul = some (arithmetic_base ∷ [])
token_mutant_type mul_assign = some (invert_assignments ∷ remove_self_assignments ∷ [])
token_mutant_type neq = some (conditionals_negation ∷ [])
token_mutant_type or = some (invert_bitwise ∷ [])
token_mutant_type or_assign = some (remove_self_assignments ∷ invert_bitwise_assignments ∷ [])
token_mutant_type quo = some (arithmetic_base ∷ [])
token_mutant_type quo_assign = some (invert_assignments ∷ remove_self_assignments ∷ [])
token_mutant_type rem = some (arithmetic_base ∷ [])
token_mutant_type rem_assign = some (invert_assignments ∷ remove_self_assignments ∷ [])
token_mutant_type shl = some (invert_bitwise ∷ [])
token_mutant_type shl_assign = some (remove_self_assignments ∷ invert_bitwise_assignments ∷ [])
token_mutant_type shr = some (invert_bitwise ∷ [])
token_mutant_type shr_assign = some (remove_self_assignments ∷ invert_bitwise_assignments ∷ [])
token_mutant_type sub = some (invert_negatives ∷ arithmetic_base ∷ [])
token_mutant_type sub_assign = some (invert_assignments ∷ remove_self_assignments ∷ [])
token_mutant_type xor = some (invert_bitwise ∷ [])
token_mutant_type xor_assign = some (remove_self_assignments ∷ invert_bitwise_assignments ∷ [])
token_mutant_type _ = none

-- `tokenMutations[mt][tok]`, where both keys are present.
unfoldable pub token_mutations : MutantType → Token → Option Token
token_mutations arithmetic_base add = some sub
token_mutations arithmetic_base mul = some quo
token_mutations arithmetic_base quo = some mul
token_mutations arithmetic_base rem = some mul
token_mutations arithmetic_base sub = some add
token_mutations conditionals_boundary geq = some gtr
token_mutations conditionals_boundary gtr = some geq
token_mutations conditionals_boundary leq = some lss
token_mutations conditionals_boundary lss = some leq
token_mutations conditionals_negation eql = some neq
token_mutations conditionals_negation geq = some lss
token_mutations conditionals_negation gtr = some leq
token_mutations conditionals_negation leq = some gtr
token_mutations conditionals_negation lss = some geq
token_mutations conditionals_negation neq = some eql
token_mutations increment_decrement dec = some inc
token_mutations increment_decrement inc = some dec
token_mutations invert_assignments add_assign = some sub_assign
token_mutations invert_assignments mul_assign = some quo_assign
token_mutations invert_assignments quo_assign = some mul_assign
token_mutations invert_assignments rem_assign = some rem_assign
token_mutations invert_assignments sub_assign = some add_assign
token_mutations invert_bitwise and = some or
token_mutations invert_bitwise or = some and
token_mutations invert_bitwise xor = some and
token_mutations invert_bitwise and_not = some and
token_mutations invert_bitwise shl = some shr
token_mutations invert_bitwise shr = some shl
token_mutations invert_bitwise_assignments and_assign = some or_assign
token_mutations invert_bitwise_assignments or_assign = some and_assign
token_mutations invert_bitwise_assignments xor_assign = some and_assign
token_mutations invert_bitwise_assignments and_not_assign = some and_assign
token_mutations invert_bitwise_assignments shl_assign = some shr_assign
token_mutations invert_bitwise_assignments shr_assign = some shl_assign
token_mutations invert_logical land = some lor
token_mutations invert_logical lor = some land
token_mutations invert_loop_ctrl break = some continue
token_mutations invert_loop_ctrl continue = some break
token_mutations invert_negatives sub = some add
token_mutations remove_self_assignments add_assign = some assign
token_mutations remove_self_assignments and_assign = some assign
token_mutations remove_self_assignments and_not_assign = some assign
token_mutations remove_self_assignments mul_assign = some assign
token_mutations remove_self_assignments or_assign = some assign
token_mutations remove_self_assignments quo_assign = some assign
token_mutations remove_self_assignments rem_assign = some assign
token_mutations remove_self_assignments shl_assign = some assign
token_mutations remove_self_assignments shr_assign = some assign
token_mutations remove_self_assignments sub_assign = some assign
token_mutations remove_self_assignments xor_assign = some assign
token_mutations _ _ = none

-- `tokenMutations[mt][tok]` as an expression: the zero token where a key is missing.
unfoldable pub mutated_token : MutantType → Token → Token
unfolding token_mutations
mutated_token mt tok = elim (token_mutations mt tok) [ some t ↦ t | none ↦ illegal ]
