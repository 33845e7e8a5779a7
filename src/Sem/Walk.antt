-- ===== src/Sem/Walk.antt =====
-- The walk over the tree: Sem_Node and Sem_Analyze of src/ast/sem.c. A node's children are annotated first, then the rest
-- of the chain that it stands in, then the node itself.
use ivan_cc.Prelude.{
  ℕ, ◌+◌, Bool, true, false, none, some, List, [], ◌∷◌, get_elem?, Outcome, ok, err, ◌>>=◌,
  null_pointer, address_of_value, no_pointer, void_pointer, not_assignable, array_assignment,
  if◌then◌else◌, pos,
}
use ivan_cc.Ast.{CType, Info, Node, Nodes, nil, cons, Func, BinaryKind, at_size}
use ivan_cc.Sem.Types.{Scope, is_pointer, is_lvalue, base_of, node_type, str_len, check_call, typed}
use ivan_cc.Sem.Arith.{arith}

unfoldable pub own_addr : Info → Node → Outcome Node
unfolding is_lvalue
own_addr i l =
    if is_lvalue l
    then (node_type l >>= λ t. ok (Node.addr (typed i (CType.ptr t)) l))
    else err (address_of_value i.line)

abbrev pub is_void : CType → Bool
is_void CType.void = true
is_void _ = false

abbrev pub is_array : CType → Bool
is_array (CType.array base len) = true
is_array _ = false

-- The element that a pointer leads to.
unfoldable pub deref_base : Info → Node → CType → Outcome Node
deref_base i l base =
    if is_void base then err (void_pointer i.line) else ok (Node.deref (typed i base) l)

unfoldable pub deref_by : Info → Node → CType → Outcome Node
unfolding is_pointer base_of
deref_by i l t = if is_pointer t then (base_of t >>= deref_base i l) else err (no_pointer i.line)

unfoldable pub own_deref : Info → Node → Outcome Node
own_deref i l = node_type l >>= deref_by i l

unfoldable pub assign_by : Info → Node → Node → CType → Outcome Node
assign_by i l r t =
    if is_array t then err (array_assignment i.line) else ok (Node.assign (typed i t) l r)

unfoldable pub own_assign : Info → Node → Node → Outcome Node
unfolding is_lvalue
own_assign i l r =
    if is_lvalue l then (node_type l >>= assign_by i l r) else err (not_assignable i.line)

-- `an_var->av_type`.
unfoldable pub var_type : Scope → ℕ → Outcome CType
var_type sc v = elim (get_elem? sc.locals v) [ none ↦ err null_pointer | some x ↦ ok x.type ]

abbrev pub own_binary : BinaryKind → Info → Node → Node → Outcome Node
own_binary BinaryKind.add i l r = arith BinaryKind.add i l r
own_binary BinaryKind.sub i l r = arith BinaryKind.sub i l r
own_binary k i l r = ok (Node.binary k (typed i CType.int) l r)

-- The switch on `an_kind`.
unfoldable pub sem_own : Scope → Node → Outcome Node
sem_own sc Node.null = ok Node.null
sem_own sc (Node.num i n) = ok (Node.num (typed i CType.int) n)
sem_own sc (Node.str i n) =
    ok (Node.str (typed i (CType.array CType.char (str_len sc.strings n + 1))) n)
sem_own sc (Node.var i v) = var_type sc v >>= λ t. ok (Node.var (typed i t) v)
sem_own sc (Node.binary k i l r) = own_binary k i l r
sem_own sc (Node.neg i l) = ok (Node.neg (typed i CType.int) l)
sem_own sc (Node.logical_not i l) = ok (Node.logical_not (typed i CType.int) l)
sem_own sc (Node.addr i l) = own_addr i l
sem_own sc (Node.deref i l) = own_deref i l
sem_own sc (Node.cast i l) = ok (Node.cast i l)
sem_own sc (Node.sizeof i l) =
    node_type l >>= λ t. ok (Node.num (typed i CType.int) (pos (at_size t)))
sem_own sc (Node.logical_and i l r) = ok (Node.logical_and (typed i CType.int) l r)
sem_own sc (Node.logical_or i l r) = ok (Node.logical_or (typed i CType.int) l r)
sem_own sc (Node.assign i l r) = own_assign i l r
sem_own sc (Node.call i name args) =
    check_call sc i name args >>= λ done. ok (Node.call (typed i CType.int) name args)
sem_own sc (Node.return_stmt i l) = ok (Node.return_stmt i l)
sem_own sc (Node.if_stmt i c t e) = ok (Node.if_stmt i c t e)
sem_own sc (Node.for_stmt i init c inc body) = ok (Node.for_stmt i init c inc body)
sem_own sc (Node.block i body) = ok (Node.block i body)
sem_own sc (Node.expr_stmt i l) = ok (Node.expr_stmt i l)
sem_own sc (Node.nop i) = ok (Node.nop i)

unfoldable mutual
  -- The calls of Sem_Node on the children: `sem_below sc n >>= sem_own sc` is Sem_Node on a node with no `an_next`.
  pub sem_below : Scope → Node → Outcome Node
  sem_below sc (Node.binary k i l r) = do
    l' ← sem_below sc l >>= sem_own sc
    r' ← sem_below sc r >>= sem_own sc
    ok (Node.binary k i l' r')
  sem_below sc (Node.neg i l) = do l' ← sem_below sc l >>= sem_own sc; ok (Node.neg i l')
  sem_below sc (Node.logical_not i l) = do
    l' ← sem_below sc l >>= sem_own sc
    ok (Node.logical_not i l')
  sem_below sc (Node.addr i l) = do l' ← sem_below sc l >>= sem_own sc; ok (Node.addr i l')
  sem_below sc (Node.deref i l) = do l' ← sem_below sc l >>= sem_own sc; ok (Node.deref i l')
  sem_below sc (Node.cast i l) = do l' ← sem_below sc l >>= sem_own sc; ok (Node.cast i l')
  sem_below sc (Node.sizeof i l) = do l' ← sem_below sc l >>= sem_own sc; ok (Node.sizeof i l')
  sem_below sc (Node.logical_and i l r) = do
    l' ← sem_below sc l >>= sem_own sc
    r' ← sem_below sc r >>= sem_own sc
    ok (Node.logical_and i l' r')
  sem_below sc (Node.logical_or i l r) = do
    l' ← sem_below sc l >>= sem_own sc
    r' ← sem_below sc r >>= sem_own sc
    ok (Node.logical_or i l' r')
  sem_below sc (Node.assign i l r) = do
    l' ← sem_below sc l >>= sem_own sc
    r' ← sem_below sc r >>= sem_own sc
    ok (Node.assign i l' r')
  sem_below sc (Node.call i name args) = do args' ← sem_nodes sc args; ok (Node.call i name args')
  sem_below sc (Node.return_stmt i l) = do
    l' ← sem_below sc l >>= sem_own sc
    ok (Node.return_stmt i l')
  sem_below sc (Node.if_stmt i c t e) = do
    c' ← sem_below sc c >>= sem_own sc
    t' ← sem_below sc t >>= sem_own sc
    e' ← sem_below sc e >>= sem_own sc
    ok (Node.if_stmt i c' t' e')
  sem_below sc (Node.for_stmt i init c inc body) = do
    c' ← sem_below sc c >>= sem_own sc
    init' ← sem_below sc init >>= sem_own sc
    inc' ← sem_below sc inc >>= sem_own sc
    body' ← sem_below sc body >>= sem_own sc
    ok (Node.for_stmt i init' c' inc' body')
  sem_below sc (Node.block i body) = do body' ← sem_nodes sc body; ok (Node.block i body')
  sem_below sc (Node.expr_stmt i l) = do
    l' ← sem_below sc l >>= sem_own sc
    ok (Node.expr_stmt i l')
  sem_below sc n = ok n

  -- Sem_Node on the head of a chain.
  pub sem_nodes : Scope → Nodes → Outcome Nodes
  sem_nodes sc nil = ok nil
  sem_nodes sc (cons n ns) = do
    n₁ ← sem_below sc n
    ns' ← sem_nodes sc ns
    n' ← sem_own sc n₁
    ok (cons n' ns')

abbrev pub sem_node : Scope → Node → Outcome Node
sem_node sc n = sem_below sc n >>= sem_own sc

-- The loop of Sem_Analyze over the functions `rest` of the program.
unfoldable pub analyze_from : List Func → List (List ℕ) → List Func → Outcome (List Func)
analyze_from prog strings [] = ok []
analyze_from prog strings (func ∷ rest) = do
  body ← sem_node (record { prog = prog; strings = strings; locals = func.locals }) func.body
  rest' ← analyze_from prog strings rest
  ok (record func { body = body } ∷ rest')

unfoldable pub analyze : List (List ℕ) → List Func → Outcome (List Func)
analyze strings prog = analyze_from prog strings prog
