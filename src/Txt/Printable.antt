-- ===== src/Txt/Printable.antt =====
-- The items whose text the parser reads back, and the items that it makes of them.
use ivan_cc.Prelude.{
  ◌<◌, ◌==◌, Bool, true, false, ◌&&◌, ◌||◌, if◌then◌else◌, List, [], ◌∷◌, ◌++◌, ◌≡◌, ◌⊎◌, All, ℤ,
  Fits, map,
}
use ivan_cc.Prelude.Name.{Name, text, name_eq}
use ivan_cc.Asm.Types.{
  Reg, Width, width_none, width_8, width_32, width_64, Op, OperandKind, Operand, no_operand, Item,
}
use ivan_cc.Asm.Emit.{reg_width, imm, mem, rip, target}
use ivan_cc.Elf.Object.{sht_progbits}
use ivan_cc.Str.Chars.{is_alpha, all}
use ivan_cc.Txt.Pattern.{is_word}
use ivan_cc.Txt.Write.{is_movsx}
use ivan_cc.Txt.Directive.{named_flags}

-- A name of letters, digits, `.`, `_` and `$` that does not begin with a digit or `$`.
unfoldable pub is_symbol : Name → Bool
is_symbol [] = false
is_symbol (c ∷ cs) = (is_alpha c || c == b'.' || c == b'_') && all is_word (c ∷ cs)

-- A displacement of 32 bits, an immediate of 64; a memory operand may carry the width of the access.
pub data PrintsOperand (o : Operand) : Type 0 where
  register :
      (r : Reg) (w : Width)
      → o ≡ reg_width r w
      → (w ≡ width_8) ⊎ ((w ≡ width_32) ⊎ (w ≡ width_64))
      → PrintsOperand o
  immediate : (v : ℤ) → o ≡ imm v → Fits 64 v → PrintsOperand o
  memory :
      (r : Reg) (d : ℤ) (w : Width)
      → o ≡ record (mem r d) { width = w }
      → Fits 32 d
      → PrintsOperand o
  relative : (l : Name) → o ≡ rip l → is_symbol l ≡ true → PrintsOperand o
  symbol : (l : Name) → o ≡ target l → is_symbol l ≡ true → PrintsOperand o

pub data PrintsInstr (op : Op) (dst src : Operand) : Type 0 where
  nullary : is_movsx op ≡ false → dst ≡ no_operand → src ≡ no_operand → PrintsInstr op dst src
  unary : is_movsx op ≡ false → PrintsOperand dst → src ≡ no_operand → PrintsInstr op dst src
  binary : is_movsx op ≡ false → PrintsOperand dst → PrintsOperand src → PrintsInstr op dst src
  extend :
      op ≡ Op.movsx
      → (src.width ≡ width_8) ⊎ (src.width ≡ width_32)
      → PrintsOperand dst
      → PrintsOperand src
      → PrintsInstr op dst src

-- The two directives of the code generator.
abbrev pub file_directive : Name
file_directive = text ".file \"cc\""

abbrev pub stack_directive : Name
stack_directive = text ".section .note.GNU-stack,\"\",@progbits"

-- A section has the type and the flags that its name stands for in the text.
abbrev pub Prints : Item → Type 0
Prints (Item.instr op dst src) = PrintsInstr op dst src
Prints (Item.label name) = is_symbol name ≡ true
Prints (Item.globl name) = is_symbol name ≡ true
Prints (Item.section name type flags) =
    (is_symbol name ≡ true) × (type ≡ sht_progbits) × (flags ≡ named_flags name)
Prints (Item.bytes data_) = All (λ b. b < 256) data_
Prints (Item.directive line) = (line ≡ file_directive) ⊎ (line ≡ stack_directive)

-- The text of a memory operand does not have its width.
abbrev pub plain_of : OperandKind → Operand → Operand
plain_of OperandKind.mem o = record o { width = width_none }
plain_of _ o = o

abbrev pub plain : Operand → Operand
plain o = plain_of o.kind o

-- What the parser makes of the text of an item, where a run of bytes is left in one piece.
unfoldable pub reading : Item → Item
reading (Item.instr op dst src) = Item.instr op (plain dst) (if is_movsx op then src else plain src)
reading (Item.directive line) =
    if name_eq line stack_directive
    then Item.section (text ".note.GNU-stack") sht_progbits 0
    else Item.directive line
reading item = item

-- The text has each byte on a line of its own.
abbrev pub pieces : Item → List Item
pieces (Item.bytes data_) = map (λ b. Item.bytes (b ∷ [])) data_
pieces item = item ∷ []

unfoldable pub readings : List Item → List Item
unfolding reading
readings [] = []
readings (item ∷ items) = pieces (reading item) ++ readings items
