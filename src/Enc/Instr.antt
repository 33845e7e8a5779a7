-- ===== src/Enc/Instr.antt =====
-- The encoding of an instruction: Enc_x86_64_EmitMovsx, EmitBranch, EmitMov and EmitInstr.
use ivan_cc.Prelude.{ℕ, ◌+◌, ◌==◌, if◌then◌else◌, leb, bit_or, Option, none, some}
use ivan_cc.Prelude.Name.{Name}
use ivan_cc.Asm.Types.{Reg, reg_num, Width, width_8, width_64, Op, OperandKind, Operand}
use ivan_cc.Enc.Types.{Site, r_x86_64_pc32, r_x86_64_plt32}
use ivan_cc.Enc.Bytes.{
  emit8, emit32, record_fixup, reg_high, low, emit_rex_w, emit_mod_rr, emit_mem, emit_rr,
  emit_grp_imm, emit_mov_imm, emit_mov_imm8, emit_mem_form, emit_lea_rip, emit_grp_unary,
  emit_setcc,
}
use ivan_cc.Enc.Rex
use ivan_cc.Enc.Grp
use ivan_cc.Enc.Opcode
use ivan_cc.Enc.Opcode2

unfoldable pub emit_movsx : Operand → Operand → Site → Site
emit_movsx dst src s =
    let s₁ = emit_rex_w (reg_high dst.reg) (reg_high src.reg) s in
    let s₂ =
      if src.width == width_8
      then emit8 Opcode2.movsx_r_rm8 (emit8 Opcode.escape s₁)
      else emit8 Opcode.movsxd_r_rm32 s₁ in
    elim src.kind [
      | OperandKind.reg ↦ emit_mod_rr (reg_num dst.reg) src.reg s₂
      | _ ↦ emit_mem (reg_num dst.reg) src.reg src.disp s₂
    ]

-- The first switch of Enc_x86_64_EmitBranch.
abbrev pub branch_opcode : Op → Site → Site
branch_opcode Op.jmp s = emit8 Opcode.jmp_rel32 s
branch_opcode Op.call s = emit8 Opcode.call_rel32 s
branch_opcode Op.je s = emit8 Opcode2.je_rel32 (emit8 Opcode.escape s)
branch_opcode Op.jne s = emit8 Opcode2.jne_rel32 (emit8 Opcode.escape s)
branch_opcode _ s = s

abbrev pub branch_type : Op → ℕ
branch_type Op.call = r_x86_64_plt32
branch_type _ = r_x86_64_pc32

-- `ao_label`, which is NULL in the operands without a name.
abbrev pub label_of : Operand → Option Name
label_of op = elim op.kind [
  | OperandKind.rip ↦ some op.label
  | OperandKind.label ↦ some op.label
  | _ ↦ none
]

unfoldable pub emit_branch : Op → Operand → Site → Site
emit_branch op dst s = emit32 0 (record_fixup (label_of dst) (branch_type op) (branch_opcode op s))

-- `mov` from an immediate, from memory, and from a register.
abbrev pub mov_from_imm : Operand → Operand → Site → Site
mov_from_imm dst src s =
    if dst.width == width_8 then emit_mov_imm8 src.imm dst.reg s else emit_mov_imm src.imm dst.reg s

abbrev pub store_opcode : Width → ℕ
store_opcode width = if width == width_8 then Opcode.mov_rm8_r8 else Opcode.mov_rm_r

abbrev pub mov_from_reg : Operand → Operand → Site → Site
mov_from_reg dst src s = elim dst.kind [
  | OperandKind.mem ↦ emit_mem_form (store_opcode src.width) src.reg dst.reg dst.disp src.width s
  | _ ↦ emit_rr Opcode.mov_rm_r src.reg dst.reg s
]

unfoldable pub emit_mov : Operand → Operand → Site → Site
emit_mov dst src s = elim src.kind [
  | OperandKind.imm ↦ mov_from_imm dst src s
  | OperandKind.mem ↦ emit_mem_form Opcode.mov_r_rm dst.reg src.reg src.disp width_64 s
  | OperandKind.reg ↦ mov_from_reg dst src s
  | _ ↦ s
]

-- The two forms of `add`, `sub` and `cmp`.
abbrev pub emit_arith : ℕ → ℕ → Operand → Operand → Site → Site
emit_arith grp opcode dst src s = elim src.kind [
  | OperandKind.imm ↦ emit_grp_imm grp src.imm dst.reg s
  | _ ↦ emit_rr opcode src.reg dst.reg s
]

abbrev pub emit_lea : Operand → Operand → Site → Site
emit_lea dst src s = elim src.kind [
  | OperandKind.rip ↦ emit_lea_rip dst.reg src.label s
  | _ ↦ emit_mem_form Opcode.lea_r_m dst.reg src.reg src.disp width_64 s
]

-- `imul` and `movzb`: an escaped opcode with two registers.
abbrev pub emit_escaped_rr : ℕ → Reg → Reg → Site → Site
emit_escaped_rr opcode dst src s =
    emit_mod_rr (reg_num dst) src
      (emit8 opcode (emit8 Opcode.escape (emit_rex_w (reg_high dst) (reg_high src) s)))

-- `push` and `pop`: the register is in the opcode.
abbrev pub emit_plus_reg : ℕ → Reg → Site → Site
emit_plus_reg opcode reg s =
    let s₁ = if leb (reg_num Reg.r8) (reg_num reg) then emit8 (bit_or Rex.base Rex.b) s else s in
    emit8 (opcode + low (reg_num reg)) s₁

unfoldable pub emit_instr : Op → Operand → Operand → Site → Site
emit_instr Op.movsx dst src s = emit_movsx dst src s
emit_instr Op.add dst src s = emit_arith Grp.add Opcode.add_rm_r dst src s
emit_instr Op.sub dst src s = emit_arith Grp.sub Opcode.sub_rm_r dst src s
emit_instr Op.cmp dst src s = emit_arith Grp.cmp Opcode.cmp_rm_r dst src s
emit_instr Op.imul dst src s = emit_escaped_rr Opcode2.imul_r_rm dst.reg src.reg s
emit_instr Op.mov dst src s = emit_mov dst src s
emit_instr Op.lea dst src s = emit_lea dst src s
emit_instr Op.idiv dst src s = emit_grp_unary Grp.idiv dst.reg s
emit_instr Op.neg dst src s = emit_grp_unary Grp.neg dst.reg s
emit_instr Op.cqo dst src s = emit8 Opcode.cqo (emit8 (bit_or Rex.base Rex.w) s)
emit_instr Op.sete dst src s = emit_setcc Opcode2.sete dst.reg s
emit_instr Op.setne dst src s = emit_setcc Opcode2.setne dst.reg s
emit_instr Op.setl dst src s = emit_setcc Opcode2.setl dst.reg s
emit_instr Op.setle dst src s = emit_setcc Opcode2.setle dst.reg s
emit_instr Op.movzb dst src s = emit_escaped_rr Opcode2.movzx_r_rm8 dst.reg src.reg s
emit_instr Op.push dst src s = emit_plus_reg Opcode.push_r dst.reg s
emit_instr Op.pop dst src s = emit_plus_reg Opcode.pop_r dst.reg s
emit_instr Op.jmp dst src s = emit_branch Op.jmp dst s
emit_instr Op.je dst src s = emit_branch Op.je dst s
emit_instr Op.jne dst src s = emit_branch Op.jne dst s
emit_instr Op.call dst src s = emit_branch Op.call dst s
emit_instr Op.ret dst src s = emit8 Opcode.ret s
emit_instr Op.syscall dst src s = emit8 Opcode2.syscall (emit8 Opcode.escape s)
