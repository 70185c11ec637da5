-- ===== src/Mutator/Names.antt =====
-- The printed names, and the list `Types`.
use gremlins.Prelude.{◌≡◌, In, here, there, arith}
use gremlins.Mutator.{Status, MutantType, status_string, type_string, types, arithmetic_base}

-- Every mutant type of the source stands in `Types`, so that each one gets its flag.
pub types_complete : (t : MutantType) → In t types
unfolding types
types_complete arithmetic_base = here
types_complete _ = search (here, there) depth 14

pub type_string_injective : (s t : MutantType) → type_string s ≡ type_string t → s ≡ t
unfolding type_string
type_string_injective s t h = ground arith

pub status_string_injective : (s t : Status) → status_string s ≡ status_string t → s ≡ t
unfolding status_string
status_string_injective s t h = ground arith
