-- ===== src/Txt/Write.antt =====
-- The writer of src/arch/x86_64/txt.c. What a function prints to the stream is the text that it returns.
use ivan_cc.Prelude.{zero, ℕ, ◌==◌, if◌then◌else◌, Bool, true, false, List, [], ◌∷◌, ◌++◌, ℤ, pos}
use ivan_cc.Prelude.Name.{Name, text, name_eq, decimal}
use ivan_cc.Asm.Types.{Reg, Width, width_8, width_32, Op, OperandKind, Operand, Item}
use ivan_cc.Str.Number.{decimal_ℤ}
use ivan_cc.Txt.Names.{reg64_name, reg8_name, reg32_name, op_name}

abbrev pub reg_name : Reg → Width → Name
reg_name reg width =
    if width == width_8
    then reg8_name reg
    else if width == width_32
    then reg32_name reg
    else reg64_name reg

-- The displacement of a memory operand is printed unless it is 0.
abbrev pub disp_text : ℤ → Name
disp_text (pos zero) = []
disp_text d = decimal_ℤ d

abbrev operand_text : OperandKind → Operand → Name
operand_text OperandKind.reg op = b'%' ∷ reg_name op.reg op.width
operand_text OperandKind.imm op = b'$' ∷ decimal_ℤ op.imm
operand_text OperandKind.mem op =
    disp_text op.disp ++ (text "(%" ++ (reg64_name op.reg ++ text ")"))
operand_text OperandKind.rip op = op.label ++ text "(%rip)"
operand_text OperandKind.label op = op.label
operand_text OperandKind.none op = []

unfoldable pub write_operand : Operand → Name
write_operand op = operand_text op.kind op

abbrev pub is_none : OperandKind → Bool
is_none OperandKind.none = true
is_none _ = false

abbrev pub is_movsx : Op → Bool
is_movsx Op.movsx = true
is_movsx _ = false

-- The mnemonic, with the width of the source of a `movs`.
unfoldable pub mnemonic : Op → Operand → Name
unfolding op_name
mnemonic op src =
    if is_movsx op
    then text "movs" ++ (if src.width == width_8 then b'b' else b'l') ∷ b'q' ∷ []
    else op_name op

unfoldable pub operands_text : Operand → Operand → Name
unfolding write_operand
operands_text dst src =
    (if is_none src.kind then [] else b' ' ∷ write_operand src)
    ++ (if is_none dst.kind
        then []
        else (if is_none src.kind then text " " else text ", ") ++ write_operand dst)

unfoldable pub write_instr : Op → Operand → Operand → Name
unfolding mnemonic operands_text
write_instr op dst src = text "  " ++ (mnemonic op src ++ (operands_text dst src ++ b'\n' ∷ []))

unfoldable pub write_bytes : List ℕ → Name
write_bytes [] = []
write_bytes (byte ∷ bytes) = text "  .byte " ++ (decimal byte ++ b'\n' ∷ write_bytes bytes)

unfoldable pub write_item : Item → Name
unfolding write_instr write_bytes
write_item (Item.instr op dst src) = write_instr op dst src
write_item (Item.label name) = name ++ text ":" ++ b'\n' ∷ []
write_item (Item.globl name) = text "  .globl " ++ (name ++ b'\n' ∷ [])
write_item (Item.section name type flags) =
    if name_eq name (text ".text")
    then text "  .text" ++ b'\n' ∷ []
    else text "  .section " ++ (name ++ b'\n' ∷ [])
write_item (Item.bytes data_) = write_bytes data_
write_item (Item.directive line) = text "  " ++ (line ++ b'\n' ∷ [])

-- The list of items in their order.
unfoldable pub write : List Item → Name
unfolding write_item
write [] = []
write (item ∷ items) = write_item item ++ write items
