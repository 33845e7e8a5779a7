-- ===== src/Asm/Emit.antt =====
-- The operand constructors and the functions that append an item: src/arch/x86_64/asm.c.
-- The list that starts at Asm_x86_64_Head is a value, which each function takes and returns.
use ivan_cc.Prelude.{ℕ, ℤ, List, [], ◌∷◌, ◌++◌, ◌==◌, if◌then◌else◌}
use ivan_cc.Prelude.Name.{Name}
use ivan_cc.Asm.Types.{Reg, Width, width_8, width_64, Op, OperandKind, Operand}
use ivan_cc.Asm.Types.{no_operand, Item, instr}

abbrev pub reg_width : Reg → Width → Operand
reg_width r w = record no_operand { kind = OperandKind.reg; reg = r; width = w }

abbrev pub reg64 : Reg → Operand
reg64 r = record no_operand { kind = OperandKind.reg; reg = r; width = width_64 }

abbrev pub reg8 : Reg → Operand
reg8 r = record no_operand { kind = OperandKind.reg; reg = r; width = width_8 }

abbrev pub imm : ℤ → Operand
imm val = record no_operand { kind = OperandKind.imm; imm = val }

abbrev pub mem : Reg → ℤ → Operand
mem base disp = record no_operand { kind = OperandKind.mem; reg = base; disp = disp }

abbrev pub rip : Name → Operand
rip label = record no_operand { kind = OperandKind.rip; label = label }

abbrev pub target : Name → Operand
target label = record no_operand { kind = OperandKind.label; label = label }

-- Asm_x86_64_New and the assignment to the item's fields.
unfoldable pub new : Item → List Item → List Item
new item items = items ++ item ∷ []

abbrev pub reset : List Item
reset = []

abbrev pub emit_label : Name → List Item → List Item
emit_label name = new (Item.label name)

abbrev pub emit_section : Name → ℕ → ℕ → List Item → List Item
emit_section name type flags = new (Item.section name type flags)

abbrev pub emit_globl : Name → List Item → List Item
emit_globl name = new (Item.globl name)

abbrev pub emit_bytes : List ℕ → List Item → List Item
emit_bytes data_ = new (Item.bytes data_)

abbrev pub emit_directive : Name → List Item → List Item
emit_directive text = new (Item.directive text)

abbrev pub emit_add : Reg → Reg → List Item → List Item
emit_add src dst = new (instr Op.add (reg64 dst) (reg64 src))

abbrev pub emit_sub : Reg → Reg → List Item → List Item
emit_sub src dst = new (instr Op.sub (reg64 dst) (reg64 src))

abbrev pub emit_imul : Reg → Reg → List Item → List Item
emit_imul src dst = new (instr Op.imul (reg64 dst) (reg64 src))

abbrev pub emit_cmp : Reg → Reg → List Item → List Item
emit_cmp src dst = new (instr Op.cmp (reg64 dst) (reg64 src))

abbrev pub emit_mov_rr : Reg → Reg → List Item → List Item
emit_mov_rr src dst = new (instr Op.mov (reg64 dst) (reg64 src))

abbrev pub emit_movsx : Reg → Reg → Width → List Item → List Item
emit_movsx src dst width = new (instr Op.movsx (reg64 dst) (reg_width src width))

abbrev pub emit_idiv : Reg → List Item → List Item
emit_idiv reg = new (instr Op.idiv (reg64 reg) no_operand)

abbrev pub emit_neg : Reg → List Item → List Item
emit_neg reg = new (instr Op.neg (reg64 reg) no_operand)

abbrev pub emit_cqo : List Item → List Item
emit_cqo = new (instr Op.cqo no_operand no_operand)

abbrev pub emit_sete : Reg → List Item → List Item
emit_sete reg = new (instr Op.sete (reg8 reg) no_operand)

abbrev pub emit_setne : Reg → List Item → List Item
emit_setne reg = new (instr Op.setne (reg8 reg) no_operand)

abbrev pub emit_setl : Reg → List Item → List Item
emit_setl reg = new (instr Op.setl (reg8 reg) no_operand)

abbrev pub emit_setle : Reg → List Item → List Item
emit_setle reg = new (instr Op.setle (reg8 reg) no_operand)

abbrev pub emit_movzb : Reg → Reg → List Item → List Item
emit_movzb src dst = new (instr Op.movzb (reg64 dst) (reg8 src))

abbrev pub emit_cmp_imm : ℤ → Reg → List Item → List Item
emit_cmp_imm val dst = new (instr Op.cmp (reg64 dst) (imm val))

abbrev pub emit_mov_imm : ℤ → Reg → List Item → List Item
emit_mov_imm val dst = new (instr Op.mov (reg64 dst) (imm val))

abbrev pub emit_mov_imm8 : ℤ → Reg → List Item → List Item
emit_mov_imm8 val dst = new (instr Op.mov (reg8 dst) (imm val))

abbrev pub emit_add_imm : ℤ → Reg → List Item → List Item
emit_add_imm val dst = new (instr Op.add (reg64 dst) (imm val))

abbrev pub emit_sub_imm : ℤ → Reg → List Item → List Item
emit_sub_imm val dst = new (instr Op.sub (reg64 dst) (imm val))

abbrev pub emit_mov_load : Reg → ℤ → Reg → Width → List Item → List Item
emit_mov_load base disp dst width =
    let op = if width == width_64 then Op.mov else Op.movsx in
    new (instr op (reg64 dst) (record (mem base disp) { width = width }))

abbrev pub emit_mov_store : Reg → Reg → ℤ → Width → List Item → List Item
emit_mov_store src base disp width = new (instr Op.mov (mem base disp) (reg_width src width))

abbrev pub emit_lea : Reg → ℤ → Reg → List Item → List Item
emit_lea base disp dst = new (instr Op.lea (reg64 dst) (mem base disp))

abbrev pub emit_lea_rip : Reg → Name → List Item → List Item
emit_lea_rip dst label = new (instr Op.lea (reg64 dst) (rip label))

abbrev pub emit_push : Reg → List Item → List Item
emit_push reg = new (instr Op.push (reg64 reg) no_operand)

abbrev pub emit_pop : Reg → List Item → List Item
emit_pop reg = new (instr Op.pop (reg64 reg) no_operand)

abbrev pub emit_jmp : Name → List Item → List Item
emit_jmp label = new (instr Op.jmp (target label) no_operand)

abbrev pub emit_je : Name → List Item → List Item
emit_je label = new (instr Op.je (target label) no_operand)

abbrev pub emit_jne : Name → List Item → List Item
emit_jne label = new (instr Op.jne (target label) no_operand)

abbrev pub emit_call : Name → List Item → List Item
emit_call label = new (instr Op.call (target label) no_operand)

abbrev pub emit_ret : List Item → List Item
emit_ret = new (instr Op.ret no_operand no_operand)

abbrev pub emit_syscall : List Item → List Item
emit_syscall = new (instr Op.syscall no_operand no_operand)
