-- ===== src/Token.antt =====
-- The part of go/token that the program uses: the operators and keywords that it can mutate, and
-- positions. `ILLEGAL` is the zero value of `token.Token`; `other` stands for every other token.
use gremlins.Prelude.{ℕ, Text}

pub data Token : Type 0 where
  illegal : Token
  add sub mul quo rem : Token
  and or xor shl shr and_not : Token
  add_assign sub_assign mul_assign quo_assign rem_assign : Token
  and_assign or_assign xor_assign shl_assign shr_assign and_not_assign : Token
  land lor inc dec : Token
  eql neq lss leq gtr geq : Token
  assign define break continue : Token
  other : ℕ → Token

-- `token.Position`.
pub record Position : Type 0 where
  pub filename : Text
  pub line : ℕ
  pub column : ℕ
