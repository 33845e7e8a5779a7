-- ===== src/Ast.antt =====
-- The abstract syntax tree: include/ast/ast.h and the constructors of src/ast/ast.c.
-- A child pointer that may be NULL is the constructor `null`, a chain through `an_next` is a `Nodes`, and a pointer
-- to a variable is its place in the list of the function's locals.
pub mod Make
pub mod Scope
mod Tests
use ivan_cc.Prelude.{ℕ, ◌*◌, List, Option, none, some, ℤ}
use ivan_cc.Prelude.Name.{Name}

-- `Ast_Type`; `at_size` and `at_align` are functions of it.
pub data CType : Type 0 where
  void char int : CType
  ptr : CType → CType
  array : CType → ℕ → CType

abbrev pub size_ptr : ℕ
size_ptr = 8

-- The length of an array and the products are unbounded here; those that no int holds are refused where the frame is
-- laid out.
-- `at_size`: AST_TYPE_SIZE_* for a primitive type, and what Ast_NewPointer and Ast_NewArray set.
unfoldable pub at_size : CType → ℕ
at_size CType.void = 1
at_size CType.char = 1
at_size CType.int = 4
at_size (CType.ptr _) = size_ptr
at_size (CType.array base len) = at_size base * len

unfoldable pub at_align : CType → ℕ
at_align CType.void = 1
at_align CType.char = 1
at_align CType.int = 4
at_align (CType.ptr _) = 8
at_align (CType.array base _) = at_align base

-- The operators that the code generator and the analyser treat alike, by `an_kind`.
pub data BinaryKind : Type 0 where
  add sub mul div modulo eq ne lt le : BinaryKind

-- The fields that every node has: `an_type`, NULL before the analysis, and `an_line`.
pub record Info : Type 0 where
  pub type : Option CType
  pub line : ℕ

-- `Ast_Node`, a constructor for each `an_kind`, with the fields that the kind uses.
mutual
  pub data Node : Type 0 where
    null : Node
    num : Info → ℤ → Node
    str : Info → ℕ → Node
    var : Info → ℕ → Node
    binary : BinaryKind → Info → Node → Node → Node
    neg : Info → Node → Node
    logical_not : Info → Node → Node
    addr : Info → Node → Node
    deref : Info → Node → Node
    cast : Info → Node → Node
    sizeof : Info → Node → Node
    logical_and : Info → Node → Node → Node
    logical_or : Info → Node → Node → Node
    assign : Info → Node → Node → Node
    call : Info → Name → Nodes → Node
    return_stmt : Info → Node → Node
    if_stmt : Info → Node → Node → Node → Node
    for_stmt : Info → Node → Node → Node → Node → Node
    block : Info → Nodes → Node
    expr_stmt : Info → Node → Node
    nop : Info → Node

  pub data Nodes : Type 0 where
    nil : Nodes
    cons : Node → Nodes → Nodes

-- The fields of `Ast_Var`; `av_offset` is filled in by the code generator.
pub record Var : Type 0 where
  pub name : Name
  pub type : CType
  pub line : ℕ
  pub offset : ℤ

-- `Ast_Func`; a parameter is its place in `locals`. A name that is declared twice among the parameters is the same
-- variable twice, and the chain through `av_param_next` then runs in a circle.
pub record Func : Type 0 where
  pub name : Name
  pub body : Node
  pub params : List ℕ
  pub nparams : ℕ
  pub locals : List Var
  pub stack_size : ℕ

-- The fields that every node has; NULL has none.
unfoldable pub info_of : Node → Option Info
info_of Node.null = none
info_of (Node.num i _) = some i
info_of (Node.str i _) = some i
info_of (Node.var i _) = some i
info_of (Node.binary _ i _ _) = some i
info_of (Node.neg i _) = some i
info_of (Node.logical_not i _) = some i
info_of (Node.addr i _) = some i
info_of (Node.deref i _) = some i
info_of (Node.cast i _) = some i
info_of (Node.sizeof i _) = some i
info_of (Node.logical_and i _ _) = some i
info_of (Node.logical_or i _ _) = some i
info_of (Node.assign i _ _) = some i
info_of (Node.call i _ _) = some i
info_of (Node.return_stmt i _) = some i
info_of (Node.if_stmt i _ _ _) = some i
info_of (Node.for_stmt i _ _ _ _) = some i
info_of (Node.block i _) = some i
info_of (Node.expr_stmt i _) = some i
info_of (Node.nop i) = some i
