-- ===== src/Engine/Node.antt =====
-- internal/engine/node.go: the token of a syntax node that can be mutated.
-- A node of go/ast is the address of its token field in the syntax tree with the token's position.
-- The tree is shared by all the mutants of a file; its token fields are a store, a function of
-- addresses.
use gremlins.Prelude.{ℕ, ◌==◌, if◌then◌else◌, Option, none, some}
use gremlins.Token.{Token}

pub data Node : Type 0 where
  assign_stmt : (tok tok_pos : ℕ) → Node
  binary_expr : (op op_pos : ℕ) → Node
  branch_stmt : (tok tok_pos : ℕ) → Node
  inc_dec_stmt : (tok tok_pos : ℕ) → Node
  unary_expr : (op op_pos : ℕ) → Node
  other_node : Node

-- The token fields of the syntax tree, by address.
abbrev pub Store : Type 0
Store = ℕ → Token

-- `NodeToken`: `tok` is a pointer into the tree.
pub record NodeToken : Type 0 where
  pub tok : ℕ
  pub tok_pos : ℕ

-- `NewTokenNode`; `none` is its `false`.
unfoldable pub new_token_node : Node → Option NodeToken
new_token_node (assign_stmt tok tok_pos) = some (record { tok = tok; tok_pos = tok_pos })
new_token_node (binary_expr op op_pos) = some (record { tok = op; tok_pos = op_pos })
new_token_node (branch_stmt tok tok_pos) = some (record { tok = tok; tok_pos = tok_pos })
new_token_node (inc_dec_stmt tok tok_pos) = some (record { tok = tok; tok_pos = tok_pos })
new_token_node (unary_expr op op_pos) = some (record { tok = op; tok_pos = op_pos })
new_token_node other_node = none

-- `NodeToken.Tok` reads through the pointer.
unfoldable pub node_tok : NodeToken → Store → Token
node_tok n ast = ast n.tok

-- `NodeToken.SetTok` writes through the pointer.
unfoldable pub set_tok : NodeToken → Token → Store → Store
set_tok n t ast = λ a. if a == n.tok then t else ast a
