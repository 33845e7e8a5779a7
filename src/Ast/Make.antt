-- ===== src/Ast/Make.antt =====
-- The constructors of types and nodes: Ast_New* of src/ast/ast.c. The kind of a node is its constructor, and a fresh
-- node has no type.
use ivan_cc.Prelude.{ℕ, none, ℤ}
use ivan_cc.Ast.{CType, Info, Node}

abbrev pub new_pointer : CType → CType
new_pointer base = CType.ptr base

abbrev pub new_array : CType → ℕ → CType
new_array base len = CType.array base len

abbrev pub new_info : ℕ → Info
new_info line = record { type = none; line = line }

abbrev pub new_node : (Info → Node) → ℕ → Node
new_node kind line = kind (new_info line)

abbrev pub new_binary : (Info → Node → Node → Node) → Node → Node → ℕ → Node
new_binary kind lhs rhs line = new_node (λ i. kind i lhs rhs) line

abbrev pub new_unary : (Info → Node → Node) → Node → ℕ → Node
new_unary kind lhs line = new_node (λ i. kind i lhs) line

abbrev pub new_num : ℤ → ℕ → Node
new_num val line = new_node (λ i. Node.num i val) line

abbrev pub new_var_node : ℕ → ℕ → Node
new_var_node var line = new_node (λ i. Node.var i var) line
