-- ===== src/Enc/Writes.antt =====
-- What an instruction adds to its section.
use ivan_cc.Prelude.{ℕ, List, ◌==◌, ◌≡◌, some, leb, bit_or}
use ivan_cc.Prelude.Name.{Name}
use ivan_cc.Asm.Types.{Reg, reg_num, width_8, width_64, Op, OperandKind, Operand}
use ivan_cc.Enc.Types.{Site}
use ivan_cc.Enc.Bytes.{
  emit8, emit_rr, emit_grp_imm, emit_mov_imm, emit_mov_imm8, emit_mem_form, emit_lea_rip,
}
use ivan_cc.Enc.Bytes.{emit_raw}
use ivan_cc.Enc.Rex
use ivan_cc.Enc.Instr.{
  emit_movsx, label_of, emit_branch, branch_opcode, emit_mov, emit_instr, emit_arith, emit_lea,
  emit_escaped_rr, emit_plus_reg, mov_from_imm, mov_from_reg, store_opcode,
}
use ivan_cc.Enc.Opcode
use ivan_cc.Enc.Opcode2
use ivan_cc.Enc.Grows.{
  Grows, Grows-refl, wrote, choose, fixup-Grows, emit_rex_w-Grows, emit_mod_rr-Grows,
  emit_mem-Grows, emit_rr-Grows, emit_grp_imm-Grows, emit_mov_imm-Grows, emit_mov_imm8-Grows,
  emit_mem_form-Grows, emit_lea_rip-Grows, emit_grp_unary-Grows, emit_setcc-Grows,
}

module _ (s : Site) where
  reg_or :
      (k : OperandKind) (a b : Site)
      → Grows s a
      → Grows s b
      → Grows s (elim k [ OperandKind.reg ↦ a | _ ↦ b ])
  reg_or OperandKind.reg a b g h = g
  reg_or _ a b g h = h

  emit_movsx-Grows : (d q : Operand) (a : Site) → Grows s a → Grows s (emit_movsx d q a)
  unfolding emit_movsx
  emit_movsx-Grows d q a g =
      let t = emit_rex_w-Grows s _ _ a g in
      let u = choose s _ _ _ (wrote s _ _ (wrote s _ _ t)) (wrote s _ _ t) in
      reg_or q.kind _ _ (emit_mod_rr-Grows s _ _ _ u) (emit_mem-Grows s _ _ _ _ u)

  branch_opcode-Grows : (op : Op) (a : Site) → Grows s a → Grows s (branch_opcode op a)
  branch_opcode-Grows Op.jmp a g = wrote s _ a g
  branch_opcode-Grows Op.call a g = wrote s _ a g
  branch_opcode-Grows Op.je a g = wrote s _ _ (wrote s _ a g)
  branch_opcode-Grows Op.jne a g = wrote s _ _ (wrote s _ a g)
  branch_opcode-Grows _ a g = g

  emit_branch-Grows :
      (op : Op) (d : Operand) (a : Site)
      → ((n : Name) × (label_of d ≡ some n))
      → Grows s a
      → Grows s (emit_branch op d a)
  unfolding emit_branch
  emit_branch-Grows op d a n g = fixup-Grows s _ _ _ n (branch_opcode-Grows op a g)

  emit_mov-Grows : (d q : Operand) (a : Site) → Grows s a → Grows s (emit_mov d q a)
  unfolding emit_mov
  emit_mov-Grows d q a g = go q.kind
    where
      from_reg :
          (k : OperandKind)
          → Grows s (elim k [
            | OperandKind.mem ↦ emit_mem_form (store_opcode q.width) q.reg d.reg d.disp q.width a
            | _ ↦ emit_rr Opcode.mov_rm_r q.reg d.reg a
          ])
      from_reg OperandKind.mem = emit_mem_form-Grows s _ _ _ _ _ a g
      from_reg _ = emit_rr-Grows s _ _ _ a g

      go :
          (k : OperandKind)
          → Grows s (elim k [
            | OperandKind.imm ↦ mov_from_imm d q a
            | OperandKind.mem ↦ emit_mem_form Opcode.mov_r_rm d.reg q.reg q.disp width_64 a
            | OperandKind.reg ↦ mov_from_reg d q a
            | _ ↦ a
          ])
      go OperandKind.imm =
          choose s (d.width == width_8) (emit_mov_imm8 q.imm d.reg a) (emit_mov_imm q.imm d.reg a)
            (emit_mov_imm8-Grows s _ _ a g) (emit_mov_imm-Grows s _ _ a g)
      go OperandKind.mem = emit_mem_form-Grows s _ _ _ _ _ a g
      go OperandKind.reg = from_reg d.kind
      go _ = g

  emit_arith-Grows :
      (i j : ℕ) (d q : Operand) (a : Site) → Grows s a → Grows s (emit_arith i j d q a)
  emit_arith-Grows i j d q a g = go q.kind
    where
      go :
          (k : OperandKind)
          → Grows s (elim k [
            | OperandKind.imm ↦ emit_grp_imm i q.imm d.reg a
            | _ ↦ emit_rr j q.reg d.reg a
          ])
      go OperandKind.imm = emit_grp_imm-Grows s _ _ _ a g
      go _ = emit_rr-Grows s _ _ _ a g

  emit_lea-Grows : (d q : Operand) (a : Site) → Grows s a → Grows s (emit_lea d q a)
  emit_lea-Grows d q a g = go q.kind
    where
      go :
          (k : OperandKind)
          → Grows s (elim k [
            | OperandKind.rip ↦ emit_lea_rip d.reg q.label a
            | _ ↦ emit_mem_form Opcode.lea_r_m d.reg q.reg q.disp width_64 a
          ])
      go OperandKind.rip = emit_lea_rip-Grows s _ _ a g
      go _ = emit_mem_form-Grows s _ _ _ _ _ a g

  emit_escaped_rr-Grows :
      (i : ℕ) (d q : Reg) (a : Site) → Grows s a → Grows s (emit_escaped_rr i d q a)
  emit_escaped_rr-Grows i d q a g =
      emit_mod_rr-Grows s _ _ _ (wrote s _ _ (wrote s _ _ (emit_rex_w-Grows s _ _ a g)))

  emit_plus_reg-Grows : (i : ℕ) (r : Reg) (a : Site) → Grows s a → Grows s (emit_plus_reg i r a)
  emit_plus_reg-Grows i r a g = wrote s _ _ (
      choose s (leb (reg_num Reg.r8) (reg_num r)) (emit8 (bit_or Rex.base Rex.b) a) a
        (wrote s _ a g) g)

  two : (x y : ℕ) (a : Site) → Grows s a → Grows s (emit8 x (emit8 y a))
  two x y a g = wrote s _ _ (wrote s _ a g)

-- Every instruction.
-- A branch has an operand with the name of its target.
abbrev pub IsNamed : Op → Operand → Type 0
IsNamed Op.jmp d = (n : Name) × (label_of d ≡ some n)
IsNamed Op.je d = (n : Name) × (label_of d ≡ some n)
IsNamed Op.jne d = (n : Name) × (label_of d ≡ some n)
IsNamed Op.call d = (n : Name) × (label_of d ≡ some n)
IsNamed _ d = Unit

pub emit_instr-Grows :
    (op : Op) (d q : Operand) (s : Site) → IsNamed op d → Grows s (emit_instr op d q s)
unfolding emit_instr
emit_instr-Grows Op.movsx d q s n = emit_movsx-Grows s d q s (Grows-refl s)
emit_instr-Grows Op.add d q s n = emit_arith-Grows s _ _ d q s (Grows-refl s)
emit_instr-Grows Op.sub d q s n = emit_arith-Grows s _ _ d q s (Grows-refl s)
emit_instr-Grows Op.cmp d q s n = emit_arith-Grows s _ _ d q s (Grows-refl s)
emit_instr-Grows Op.imul d q s n = emit_escaped_rr-Grows s Opcode2.imul_r_rm _ _ s (Grows-refl s)
emit_instr-Grows Op.mov d q s n = emit_mov-Grows s d q s (Grows-refl s)
emit_instr-Grows Op.lea d q s n = emit_lea-Grows s d q s (Grows-refl s)
emit_instr-Grows Op.idiv d q s n = emit_grp_unary-Grows s _ _ s (Grows-refl s)
emit_instr-Grows Op.neg d q s n = emit_grp_unary-Grows s _ _ s (Grows-refl s)
emit_instr-Grows Op.cqo d q s n = two s Opcode.cqo (bit_or Rex.base Rex.w) s (Grows-refl s)
emit_instr-Grows Op.sete d q s n = emit_setcc-Grows s _ _ s (Grows-refl s)
emit_instr-Grows Op.setne d q s n = emit_setcc-Grows s _ _ s (Grows-refl s)
emit_instr-Grows Op.setl d q s n = emit_setcc-Grows s _ _ s (Grows-refl s)
emit_instr-Grows Op.setle d q s n = emit_setcc-Grows s _ _ s (Grows-refl s)
emit_instr-Grows Op.movzb d q s n = emit_escaped_rr-Grows s Opcode2.movzx_r_rm8 _ _ s (Grows-refl s)
emit_instr-Grows Op.push d q s n = emit_plus_reg-Grows s _ _ s (Grows-refl s)
emit_instr-Grows Op.pop d q s n = emit_plus_reg-Grows s _ _ s (Grows-refl s)
emit_instr-Grows Op.jmp d q s n = emit_branch-Grows s Op.jmp d s n (Grows-refl s)
emit_instr-Grows Op.je d q s n = emit_branch-Grows s Op.je d s n (Grows-refl s)
emit_instr-Grows Op.jne d q s n = emit_branch-Grows s Op.jne d s n (Grows-refl s)
emit_instr-Grows Op.call d q s n = emit_branch-Grows s Op.call d s n (Grows-refl s)
emit_instr-Grows Op.ret d q s n = wrote s _ s (Grows-refl s)
emit_instr-Grows Op.syscall d q s n = two s Opcode2.syscall Opcode.escape s (Grows-refl s)

pub emit_raw-Grows : (data_ : List ℕ) (s : Site) → Grows s (emit_raw data_ s)
emit_raw-Grows data_ s = wrote s data_ s (Grows-refl s)
