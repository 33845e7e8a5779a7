-- ===== src/Gen/Stmt.antt =====
-- Statements: Gen_x86_64_EmitStmt.
use ivan_cc.Prelude.{◌++◌, Outcome, ok, err, ◌>>=◌, null_pointer, unexpected_statement, ℕ, pos}
use ivan_cc.Prelude.Name.{Name, text}
use ivan_cc.Ast.{Node, Nodes, nil, cons}
use ivan_cc.Asm.Types.{Reg}
use ivan_cc.Asm.Emit
use ivan_cc.Gen.State.{Gen, asm, count, else_label, endif_label, begin_label, endfor_label}
use ivan_cc.Gen.Expr.{emit_expr}

-- ".L.return.%s"
abbrev pub return_label : Name → Name
return_label func = text ".L.return." ++ func

unfoldable pub jump_return : Gen → Gen
jump_return s = asm (Emit.emit_jmp (return_label s.curr_func)) s

-- Compare %rax with 0 and jump if they are equal.
unfoldable pub jump_if_zero : Name → Gen → Gen
jump_if_zero label s = asm (Emit.emit_je label) (asm (Emit.emit_cmp_imm (pos 0) Reg.rax) s)

-- `if (n)`: what is done with a child is left out where the child is NULL.
unfoldable pub unless_null : Node → (Gen → Outcome Gen) → Gen → Outcome Gen
unless_null Node.null k s = ok s
unless_null _ k s = k s

-- The condition of a `for`, with its exit.
unfoldable pub emit_condition : ℕ → Node → Gen → Outcome Gen
emit_condition id Node.null s = ok s
emit_condition id n s = do s' ← emit_expr n s; ok (jump_if_zero (endfor_label id) s')

-- A returned value, 0 if there is none.
unfoldable pub emit_result : Node → Gen → Outcome Gen
emit_result Node.null s = ok (asm (Emit.emit_mov_imm (pos 0) Reg.rax) s)
emit_result n s = emit_expr n s

unfoldable mutual
  pub emit_stmt : Node → Gen → Outcome Gen
  emit_stmt (Node.return_stmt i l) s = do s' ← emit_result l s; ok (jump_return s')
  emit_stmt (Node.if_stmt i c t e) s = do
    let id = s.label_id
    s₁ ← emit_expr c (count s)
    s₂ ← emit_stmt t (jump_if_zero (else_label id) s₁)
    let s₃ = asm (Emit.emit_label (else_label id)) (asm (Emit.emit_jmp (endif_label id)) s₂)
    s₄ ← unless_null e (emit_stmt e) s₃
    ok (asm (Emit.emit_label (endif_label id)) s₄)
  emit_stmt (Node.for_stmt i init c inc body) s = do
    let id = s.label_id
    s₁ ← unless_null init (emit_expr init) (count s)
    s₂ ← emit_condition id c (asm (Emit.emit_label (begin_label id)) s₁)
    s₃ ← emit_stmt body s₂
    s₄ ← unless_null inc (emit_expr inc) s₃
    ok (asm (Emit.emit_label (endfor_label id)) (asm (Emit.emit_jmp (begin_label id)) s₄))
  emit_stmt (Node.block i body) s = emit_stmts body s
  emit_stmt (Node.expr_stmt i l) s = emit_expr l s
  emit_stmt (Node.nop i) s = ok s
  emit_stmt Node.null s = err null_pointer
  emit_stmt (Node.num i n) s = err (unexpected_statement i.line)
  emit_stmt (Node.str i n) s = err (unexpected_statement i.line)
  emit_stmt (Node.var i v) s = err (unexpected_statement i.line)
  emit_stmt (Node.binary k i l r) s = err (unexpected_statement i.line)
  emit_stmt (Node.neg i l) s = err (unexpected_statement i.line)
  emit_stmt (Node.logical_not i l) s = err (unexpected_statement i.line)
  emit_stmt (Node.addr i l) s = err (unexpected_statement i.line)
  emit_stmt (Node.deref i l) s = err (unexpected_statement i.line)
  emit_stmt (Node.cast i l) s = err (unexpected_statement i.line)
  emit_stmt (Node.sizeof i l) s = err (unexpected_statement i.line)
  emit_stmt (Node.logical_and i l r) s = err (unexpected_statement i.line)
  emit_stmt (Node.logical_or i l r) s = err (unexpected_statement i.line)
  emit_stmt (Node.assign i l r) s = err (unexpected_statement i.line)
  emit_stmt (Node.call i f args) s = err (unexpected_statement i.line)

  -- The list that hangs on `an_body` of a block.
  pub emit_stmts : Nodes → Gen → Outcome Gen
  emit_stmts nil s = ok s
  emit_stmts (cons stmt rest) s = do s' ← emit_stmt stmt s; emit_stmts rest s'
