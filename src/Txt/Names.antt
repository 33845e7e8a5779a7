-- ===== src/Txt/Names.antt =====
-- The tables of src/arch/x86_64/txt.c and the searches in them. A table is a function on the enumeration that indexes it,
-- and a search goes through the enumeration in its order.
use ivan_cc.Prelude.{if◌then◌else◌, Option, none, some, List, [], ◌∷◌}
use ivan_cc.Prelude.Name.{Name, text, name_eq}
use ivan_cc.Asm.Types.{Reg, Op, Width, width_8, width_32, width_64}

unfoldable pub reg64_name : Reg → Name
reg64_name Reg.rax = text "rax"
reg64_name Reg.rcx = text "rcx"
reg64_name Reg.rdx = text "rdx"
reg64_name Reg.rbx = text "rbx"
reg64_name Reg.rsp = text "rsp"
reg64_name Reg.rbp = text "rbp"
reg64_name Reg.rsi = text "rsi"
reg64_name Reg.rdi = text "rdi"
reg64_name Reg.r8 = text "r8"
reg64_name Reg.r9 = text "r9"
reg64_name Reg.r10 = text "r10"
reg64_name Reg.r11 = text "r11"
reg64_name Reg.r12 = text "r12"
reg64_name Reg.r13 = text "r13"
reg64_name Reg.r14 = text "r14"
reg64_name Reg.r15 = text "r15"

unfoldable pub reg8_name : Reg → Name
reg8_name Reg.rax = text "al"
reg8_name Reg.rcx = text "cl"
reg8_name Reg.rdx = text "dl"
reg8_name Reg.rbx = text "bl"
reg8_name Reg.rsp = text "spl"
reg8_name Reg.rbp = text "bpl"
reg8_name Reg.rsi = text "sil"
reg8_name Reg.rdi = text "dil"
reg8_name Reg.r8 = text "r8b"
reg8_name Reg.r9 = text "r9b"
reg8_name Reg.r10 = text "r10b"
reg8_name Reg.r11 = text "r11b"
reg8_name Reg.r12 = text "r12b"
reg8_name Reg.r13 = text "r13b"
reg8_name Reg.r14 = text "r14b"
reg8_name Reg.r15 = text "r15b"

unfoldable pub reg32_name : Reg → Name
reg32_name Reg.rax = text "eax"
reg32_name Reg.rcx = text "ecx"
reg32_name Reg.rdx = text "edx"
reg32_name Reg.rbx = text "ebx"
reg32_name Reg.rsp = text "esp"
reg32_name Reg.rbp = text "ebp"
reg32_name Reg.rsi = text "esi"
reg32_name Reg.rdi = text "edi"
reg32_name Reg.r8 = text "r8d"
reg32_name Reg.r9 = text "r9d"
reg32_name Reg.r10 = text "r10d"
reg32_name Reg.r11 = text "r11d"
reg32_name Reg.r12 = text "r12d"
reg32_name Reg.r13 = text "r13d"
reg32_name Reg.r14 = text "r14d"
reg32_name Reg.r15 = text "r15d"

unfoldable pub op_name : Op → Name
op_name Op.mov = text "mov"
op_name Op.movsx = text "movs"
op_name Op.lea = text "lea"
op_name Op.push = text "push"
op_name Op.pop = text "pop"
op_name Op.add = text "add"
op_name Op.sub = text "sub"
op_name Op.imul = text "imul"
op_name Op.idiv = text "idiv"
op_name Op.cqo = text "cqo"
op_name Op.neg = text "neg"
op_name Op.cmp = text "cmp"
op_name Op.sete = text "sete"
op_name Op.setne = text "setne"
op_name Op.setl = text "setl"
op_name Op.setle = text "setle"
op_name Op.movzb = text "movzb"
op_name Op.jmp = text "jmp"
op_name Op.je = text "je"
op_name Op.jne = text "jne"
op_name Op.call = text "call"
op_name Op.ret = text "ret"
op_name Op.syscall = text "syscall"

-- The enumerations in the order of their values.
abbrev all_regs : List Reg
all_regs =
    Reg.rax ∷ Reg.rcx ∷ Reg.rdx ∷ Reg.rbx ∷ Reg.rsp ∷ Reg.rbp ∷ Reg.rsi ∷ Reg.rdi ∷ Reg.r8 ∷ Reg.r9
    ∷ Reg.r10 ∷ Reg.r11 ∷ Reg.r12 ∷ Reg.r13 ∷ Reg.r14 ∷ Reg.r15 ∷ []

abbrev all_ops : List Op
all_ops =
    Op.mov ∷ Op.movsx ∷ Op.lea ∷ Op.push ∷ Op.pop ∷ Op.add ∷ Op.sub ∷ Op.imul ∷ Op.idiv ∷ Op.cqo
    ∷ Op.neg ∷ Op.cmp ∷ Op.sete ∷ Op.setne ∷ Op.setl ∷ Op.setle ∷ Op.movzb ∷ Op.jmp ∷ Op.je ∷ Op.jne
    ∷ Op.call ∷ Op.ret ∷ Op.syscall ∷ []

-- The register and the width of a name; none for -1.
unfoldable pub reg_by_name_in : Name → List Reg → Option (Reg × Width)
unfolding reg64_name reg32_name reg8_name
reg_by_name_in name [] = none
reg_by_name_in name (reg ∷ regs) =
    let rest = reg_by_name_in name regs in
    if name_eq name (reg64_name reg)
    then some (reg, width_64)
    else if name_eq name (reg32_name reg)
    then some (reg, width_32)
    else if name_eq name (reg8_name reg)
    then some (reg, width_8)
    else rest

unfoldable pub reg_by_name : Name → Option (Reg × Width)
unfolding reg_by_name_in
reg_by_name name = reg_by_name_in name all_regs

unfoldable pub op_by_name_in : Name → List Op → Option Op
unfolding op_name
op_by_name_in name [] = none
op_by_name_in name (op ∷ ops) =
    let rest = op_by_name_in name ops in if name_eq name (op_name op) then some op else rest

unfoldable pub op_by_name : Name → Option Op
unfolding op_by_name_in
op_by_name name = op_by_name_in name all_ops
