-- ===== src/Sem/Types.antt =====
-- The queries of src/ast/sem.c on types, nodes and the program.
use ivan_cc.Prelude.{
  ℕ, suc, Bool, true, false, Option, none, some, List, [], ◌∷◌, length, get_elem?, Outcome, ok, err,
  null_pointer, wrong_argument_count, if◌then◌else◌, ◌==◌, pos,
}
use ivan_cc.Prelude.Name.{Name, name_eq}
use ivan_cc.Ast.{CType, Info, Node, Nodes, nil, cons, Var, Func, BinaryKind, info_of}

-- What the analysis reads besides the node: `Sem_Prog`, the table of string literals, and the variables that the nodes
-- of the function point to.
pub record Scope : Type 0 where
  pub prog : List Func
  pub strings : List (List ℕ)
  pub locals : List Var

unfoldable pub find_func : Name → List Func → Option Func
find_func name [] = none
find_func name (func ∷ prog) =
    let rest = find_func name prog in if name_eq func.name name then some func else rest

unfoldable pub count_nodes : Nodes → ℕ
count_nodes nil = 0
count_nodes (cons node nodes) = suc (count_nodes nodes)

unfoldable pub is_pointer : CType → Bool
is_pointer (CType.ptr base) = true
is_pointer (CType.array base len) = true
is_pointer _ = false

unfoldable pub is_lvalue : Node → Bool
is_lvalue (Node.var i v) = true
is_lvalue (Node.deref i l) = true
is_lvalue _ = false

unfoldable pub decay : CType → CType
decay (CType.array base len) = CType.ptr base
decay t = t

-- `at_base`, which is NULL for a type that is neither a pointer nor an array.
unfoldable pub base_of : CType → Outcome CType
base_of (CType.ptr base) = ok base
base_of (CType.array base len) = ok base
base_of _ = err null_pointer

-- A read of `an_type` through the pointer, at a node that may be NULL.
unfoldable pub node_type : Node → Outcome CType
unfolding info_of
node_type n = elim (info_of n) [
  | none ↦ err null_pointer
  | some i ↦ elim i.type [ none ↦ err null_pointer | some t ↦ ok t ]
]

-- `as_len` of the literal in a slot; a slot that is not in use is zero.
unfoldable pub str_len : List (List ℕ) → ℕ → ℕ
str_len strings n = elim (get_elem? strings n) [ none ↦ 0 | some str ↦ length str ]

-- Sem_CheckCall, on the name and the arguments of the node.
unfoldable pub check_call : Scope → Info → Name → Nodes → Outcome (Unit {0})
unfolding count_nodes find_func
check_call sc i name args = elim (find_func name sc.prog) [
  | none ↦ ok tt
  | some func ↦
      if count_nodes args == func.nparams
      then ok tt
      else err (wrong_argument_count i.line (count_nodes args) func.nparams)
]

abbrev pub typed : Info → CType → Info
typed i t = record i { type = some t }

-- A node that Ast_NewNode makes, with the type that the analysis gives it.
abbrev pub int_at : ℕ → Info
int_at line = record { type = some CType.int; line = line }

unfoldable pub scale_by : ℕ → Node → ℕ → Node
scale_by line node size =
    Node.binary BinaryKind.mul (int_at line) node (Node.num (int_at line) (pos size))
