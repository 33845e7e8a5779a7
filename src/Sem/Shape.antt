-- ===== src/Sem/Shape.antt =====
-- The shapes of trees before, during and after the analysis.
use ivan_cc.Prelude.{ℕ, ◌<◌, All, length, ◌≡◌, true, false}
use ivan_cc.Gen.Frame.{fits_frame}
use ivan_cc.Gen.Program.{has_circle}
use ivan_cc.Ast.{Node, Nodes, nil, cons, Func}
use ivan_cc.Gen.Accepts.{Typed, IsExpr, AreExprs}
use ivan_cc.Gen.Returns.{OrNull}

-- What the grammar makes: an expression over `k` variables, where a cast has the type that it names.
abbrev mutual
  pub IsTree : ℕ → Node → Type 0
  IsTree k (Node.num i n) = Unit
  IsTree k (Node.str i n) = Unit
  IsTree k (Node.var i v) = v < k
  IsTree k (Node.binary op i l r) = IsTree k l × IsTree k r
  IsTree k (Node.neg i l) = IsTree k l
  IsTree k (Node.logical_not i l) = IsTree k l
  IsTree k (Node.addr i l) = IsTree k l
  IsTree k (Node.deref i l) = IsTree k l
  IsTree k (Node.cast i l) = IsTree k l × Typed i
  IsTree k (Node.sizeof i l) = IsTree k l
  IsTree k (Node.logical_and i l r) = IsTree k l × IsTree k r
  IsTree k (Node.logical_or i l r) = IsTree k l × IsTree k r
  IsTree k (Node.assign i l r) = IsTree k l × IsTree k r
  IsTree k (Node.call i f args) = AreTrees k args
  IsTree k _ = ⊥

  pub AreTrees : ℕ → Nodes → Type 0
  AreTrees k nil = Unit
  AreTrees k (cons n ns) = IsTree k n × AreTrees k ns

-- An expression whose children are annotated.
abbrev pub IsBelow : ℕ → Node → Type 0
IsBelow k (Node.num i n) = Unit
IsBelow k (Node.str i n) = Unit
IsBelow k (Node.var i v) = v < k
IsBelow k (Node.binary op i l r) = IsExpr k l × IsExpr k r
IsBelow k (Node.neg i l) = IsExpr k l
IsBelow k (Node.logical_not i l) = IsExpr k l
IsBelow k (Node.addr i l) = IsExpr k l
IsBelow k (Node.deref i l) = IsExpr k l
IsBelow k (Node.cast i l) = IsExpr k l × Typed i
IsBelow k (Node.sizeof i l) = IsExpr k l
IsBelow k (Node.logical_and i l r) = IsExpr k l × IsExpr k r
IsBelow k (Node.logical_or i l r) = IsExpr k l × IsExpr k r
IsBelow k (Node.assign i l r) = IsExpr k l × IsExpr k r
IsBelow k (Node.call i f args) = AreExprs k args
IsBelow k _ = ⊥

-- The statements that the grammar makes.
abbrev mutual
  pub IsBody : ℕ → Node → Type 0
  IsBody k (Node.return_stmt i l) = OrNull l (IsTree k l)
  IsBody k (Node.if_stmt i c t e) = IsTree k c × IsBody k t × OrNull e (IsBody k e)
  IsBody k (Node.for_stmt i init c inc body) =
      OrNull init (IsTree k init)
      × OrNull c (IsTree k c)
      × OrNull inc (IsTree k inc)
      × IsBody k body
  IsBody k (Node.block i body) = AreBodies k body
  IsBody k (Node.expr_stmt i l) = IsTree k l
  IsBody k (Node.nop i) = Unit
  IsBody k _ = ⊥

  pub AreBodies : ℕ → Nodes → Type 0
  AreBodies k nil = Unit
  AreBodies k (cons n ns) = IsBody k n × AreBodies k ns

-- The function that the parser adds to the program, if it has no two parameters of one name and its locals' sizes and
-- offsets are ints.
abbrev pub IsParsed : Func → Type 0
IsParsed func =
    IsBody (length func.locals) func.body
    × All (λ v. v < length func.locals) func.params
    × (has_circle func.params ≡ false)
    × (fits_frame 0 func.locals ≡ true)
