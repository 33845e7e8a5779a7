-- ===== src/Gen/Expr.antt =====
-- Expressions: Gen_x86_64_EmitAddr, the functions for a call's arguments and Gen_x86_64_EmitExpr.
use ivan_cc.Prelude.{
  ℕ, suc, ◌+◌, ◌/◌, ◌-◌, List, [], ◌∷◌, Outcome, ok, err, ◌>>=◌, null_pointer, not_an_lvalue, ℤ,
  pos, neg_part, pos_part, ◌+ℤ◌, ◌-ℤ◌, ◌*ℤ◌, ◌%ℤ◌, ltb, ◌==◌, if◌then◌else◌, Bool, take,
}
use ivan_cc.Ast.{Node, Nodes, nil, cons, BinaryKind}
use ivan_cc.Asm.Types.{Reg}
use ivan_cc.Asm.Emit
use ivan_cc.Gen.State.{
  Gen, asm, count, emit_push, emit_pop, emit_load, emit_cast, type_of, offset_of, type_width,
  arg_reg, word_size, stack_align, max_reg_args, str_label, false_label, true_label, end_label,
}

-- Gen_x86_64_CallCountArgs.
unfoldable pub call_count_args : Nodes → ℕ
call_count_args nil = 0
call_count_args (cons arg args) = suc (call_count_args args)

-- Gen_x86_64_CallPopArgs, on the registers of ArgReg that the loop goes through.
unfoldable pub call_pop_args : List Reg → Gen → Gen
call_pop_args [] s = s
call_pop_args (reg ∷ regs) s = call_pop_args regs (emit_pop reg s)

-- The inner switch of Gen_x86_64_EmitExpr: the instructions of one operator, on %rax and %rdi.
unfoldable pub emit_binary : BinaryKind → Gen → Gen
emit_binary BinaryKind.add s = asm (Emit.emit_add Reg.rdi Reg.rax) s
emit_binary BinaryKind.sub s = asm (Emit.emit_sub Reg.rdi Reg.rax) s
emit_binary BinaryKind.mul s = asm (Emit.emit_imul Reg.rdi Reg.rax) s
emit_binary BinaryKind.div s = asm (Emit.emit_idiv Reg.rdi) (asm Emit.emit_cqo s)
emit_binary BinaryKind.modulo s =
    asm (Emit.emit_mov_rr Reg.rdx Reg.rax) (asm (Emit.emit_idiv Reg.rdi) (asm Emit.emit_cqo s))
emit_binary BinaryKind.eq s =
    asm (Emit.emit_movzb Reg.rax Reg.rax)
      (asm (Emit.emit_sete Reg.rax) (asm (Emit.emit_cmp Reg.rdi Reg.rax) s))
emit_binary BinaryKind.ne s =
    asm (Emit.emit_movzb Reg.rax Reg.rax)
      (asm (Emit.emit_setne Reg.rax) (asm (Emit.emit_cmp Reg.rdi Reg.rax) s))
emit_binary BinaryKind.lt s =
    asm (Emit.emit_movzb Reg.rax Reg.rax)
      (asm (Emit.emit_setl Reg.rax) (asm (Emit.emit_cmp Reg.rdi Reg.rax) s))
emit_binary BinaryKind.le s =
    asm (Emit.emit_movzb Reg.rax Reg.rax)
      (asm (Emit.emit_setle Reg.rax) (asm (Emit.emit_cmp Reg.rdi Reg.rax) s))

-- `!`: compare with 0 and take the flag.
unfoldable pub emit_not : Gen → Gen
emit_not s =
    asm (Emit.emit_movzb Reg.rax Reg.rax)
      (asm (Emit.emit_sete Reg.rax) (asm (Emit.emit_cmp_imm (pos 0) Reg.rax) s))

-- The last lines of `&&`, after the test of the right operand.
unfoldable pub and_tail : ℕ → Gen → Gen
and_tail count s = asm (Emit.emit_label (end_label count)) (
    asm (Emit.emit_mov_imm (pos 0) Reg.rax) (
      asm (Emit.emit_label (false_label count))
        (asm (Emit.emit_jmp (end_label count)) (asm (Emit.emit_mov_imm (pos 1) Reg.rax) s))))

-- The last lines of `||`.
unfoldable pub or_tail : ℕ → Gen → Gen
or_tail count s = asm (Emit.emit_label (end_label count)) (
    asm (Emit.emit_mov_imm (pos 1) Reg.rax) (
      asm (Emit.emit_label (true_label count))
        (asm (Emit.emit_jmp (end_label count)) (asm (Emit.emit_mov_imm (pos 0) Reg.rax) s))))

-- Compare %rax with 0 and jump to the label if they are equal, or if they are not.
unfoldable pub test_je : ℕ → Gen → Gen
test_je count s = asm (Emit.emit_je (false_label count)) (asm (Emit.emit_cmp_imm (pos 0) Reg.rax) s)

unfoldable pub test_jne : ℕ → Gen → Gen
test_jne count s =
    asm (Emit.emit_jne (true_label count)) (asm (Emit.emit_cmp_imm (pos 0) Reg.rax) s)

-- `nReg`, the arguments that go in registers.
unfoldable pub reg_args : ℕ → ℕ
reg_args n = if ltb n max_reg_args then n else max_reg_args

-- `nAlignPad`, an `int` remainder.
unfoldable pub align_pad : ℤ → ℕ → ℤ
unfolding ◌+ℤ◌ ◌%ℤ◌
align_pad depth n_stack = (depth +ℤ pos n_stack) %ℤ pos (stack_align / word_size)

abbrev pub is_zero : ℤ → Bool
is_zero z = pos_part z + neg_part z == 0

-- `if (nAlignPad)`: one word of padding.
unfoldable pub open_pad : ℤ → Gen → Gen
open_pad pad s = if is_zero pad then s else record s {
  items = Emit.emit_sub_imm (pos word_size) Reg.rsp s.items;
  depth = s.depth +ℤ pos 1;
}

-- `if (nStack + nAlignPad > 0)`: release the stack arguments and the padding.
unfoldable pub close_call : ℕ → ℤ → Gen → Gen
unfolding ◌*ℤ◌
close_call n_stack pad s =
    let n = pos n_stack +ℤ pad in
    if ltb 0 (pos_part n)
    then record s {
      items = Emit.emit_add_imm (pos word_size *ℤ n) Reg.rsp s.items;
      depth = s.depth -ℤ n;
    }
    else s

unfoldable mutual
  -- A node of another kind is no lvalue.
  pub emit_addr : Node → Gen → Outcome Gen
  emit_addr (Node.var i v) s = do
    off ← offset_of s v
    ok (asm (Emit.emit_lea Reg.rbp off Reg.rax) s)
  emit_addr (Node.deref i l) s = emit_expr l s
  emit_addr Node.null s = err null_pointer
  emit_addr (Node.num i n) s = err (not_an_lvalue i.line)
  emit_addr (Node.str i n) s = err (not_an_lvalue i.line)
  emit_addr (Node.binary k i l r) s = err (not_an_lvalue i.line)
  emit_addr (Node.neg i l) s = err (not_an_lvalue i.line)
  emit_addr (Node.logical_not i l) s = err (not_an_lvalue i.line)
  emit_addr (Node.addr i l) s = err (not_an_lvalue i.line)
  emit_addr (Node.cast i l) s = err (not_an_lvalue i.line)
  emit_addr (Node.sizeof i l) s = err (not_an_lvalue i.line)
  emit_addr (Node.logical_and i l r) s = err (not_an_lvalue i.line)
  emit_addr (Node.logical_or i l r) s = err (not_an_lvalue i.line)
  emit_addr (Node.assign i l r) s = err (not_an_lvalue i.line)
  emit_addr (Node.call i f args) s = err (not_an_lvalue i.line)
  emit_addr (Node.return_stmt i l) s = err (not_an_lvalue i.line)
  emit_addr (Node.if_stmt i c t e) s = err (not_an_lvalue i.line)
  emit_addr (Node.for_stmt i a c n b) s = err (not_an_lvalue i.line)
  emit_addr (Node.block i b) s = err (not_an_lvalue i.line)
  emit_addr (Node.expr_stmt i l) s = err (not_an_lvalue i.line)
  emit_addr (Node.nop i) s = err (not_an_lvalue i.line)

  -- For a variable or `*` this is Gen_x86_64_EmitAddr of the node, then the load. A kind that is
  -- no expression has no right operand: the default case reads through that null pointer.
  pub emit_expr : Node → Gen → Outcome Gen
  emit_expr (Node.num i n) s = ok (asm (Emit.emit_mov_imm n Reg.rax) s)
  emit_expr (Node.str i n) s = ok (asm (Emit.emit_lea_rip Reg.rax (str_label n)) s)
  emit_expr (Node.var i v) s = do
    off ← offset_of s v
    t ← type_of i
    ok (emit_load t (asm (Emit.emit_lea Reg.rbp off Reg.rax) s))
  emit_expr (Node.deref i l) s = do s' ← emit_expr l s; t ← type_of i; ok (emit_load t s')
  emit_expr (Node.addr i l) s = emit_addr l s
  emit_expr (Node.cast i l) s = do s' ← emit_expr l s; t ← type_of i; ok (emit_cast t s')
  emit_expr (Node.assign i l r) s = do
    s₁ ← emit_addr l s
    s₂ ← emit_expr r (emit_push s₁)
    t ← type_of i
    ok (asm (Emit.emit_mov_store Reg.rax Reg.rdi (pos 0) (type_width t)) (emit_pop Reg.rdi s₂))
  emit_expr (Node.neg i l) s = do s' ← emit_expr l s; ok (asm (Emit.emit_neg Reg.rax) s')
  emit_expr (Node.logical_not i l) s = do s' ← emit_expr l s; ok (emit_not s')
  emit_expr (Node.logical_and i l r) s = do
    s₁ ← emit_expr l (count s)
    s₂ ← emit_expr r (test_je s.label_id s₁)
    ok (and_tail s.label_id (test_je s.label_id s₂))
  emit_expr (Node.logical_or i l r) s = do
    s₁ ← emit_expr l (count s)
    s₂ ← emit_expr r (test_jne s.label_id s₁)
    ok (or_tail s.label_id (test_jne s.label_id s₂))
  emit_expr (Node.call i func_name args) s = do
    let n_args = call_count_args args
    let n_reg = reg_args n_args
    let n_stack = n_args - n_reg
    let pad = align_pad s.depth n_stack
    s₁ ← call_push_args args (open_pad pad s)
    let s₂ = call_pop_args (take n_reg arg_reg) s₁
    let s₃ = asm (Emit.emit_mov_imm8 (pos 0) Reg.rax) s₂
    ok (close_call n_stack pad (asm (Emit.emit_call func_name) s₃))
  emit_expr (Node.binary k i l r) s = do
    s₁ ← emit_expr r s
    s₂ ← emit_expr l (emit_push s₁)
    ok (emit_binary k (emit_pop Reg.rdi s₂))
  emit_expr Node.null s = err null_pointer
  emit_expr (Node.sizeof i l) s = err null_pointer
  emit_expr (Node.return_stmt i l) s = err null_pointer
  emit_expr (Node.if_stmt i c t e) s = err null_pointer
  emit_expr (Node.for_stmt i a c n b) s = err null_pointer
  emit_expr (Node.block i b) s = err null_pointer
  emit_expr (Node.expr_stmt i l) s = err null_pointer
  emit_expr (Node.nop i) s = err null_pointer

  -- Gen_x86_64_CallPushArgs: the last argument first.
  pub call_push_args : Nodes → Gen → Outcome Gen
  call_push_args nil s = ok s
  call_push_args (cons arg args) s = do
    s₁ ← call_push_args args s
    s₂ ← emit_expr arg s₁
    ok (emit_push s₂)
