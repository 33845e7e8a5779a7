-- ===== src/Txt/Tests.antt =====
-- A small program in text: its items, their text, and the theorems at them.
use ivan_cc.Prelude.{arith, ◌≡◌, refl, List, [], ◌∷◌, negsuc, All, inl, inr, ok, ◌>>=◌, map}
use ivan_cc.Prelude.Name.{text, decimal}
use ivan_cc.Str.Number.{decimal_ℤ}
use ivan_cc.Txt.Names.{reg64_name}
use ivan_cc.Asm.Types.{Reg, Op, Item, no_operand, width_8}
use ivan_cc.Asm.Emit.{reg64, imm, mem, target}
use ivan_cc.Enc.Object.{build_object}
use ivan_cc.Str.Chars.{is_alpha}
use ivan_cc.Txt.Pattern.{is_word}
use ivan_cc.Txt.Write.{write}
use ivan_cc.Txt.Line.{parse, parse_line, parse_line_fuel}
use ivan_cc.Txt.Ends.{parse_line-ends}
use ivan_cc.Txt.Directive.{named_flags}
use ivan_cc.Txt.Printable.{
  Prints, nullary, unary, binary, extend, register, immediate, memory, symbol, is_symbol, readings,
}
use ivan_cc.Txt.RoundTrip.{parse-write}
use ivan_cc.Txt.Assembled.{noted, build_object-write}

abbrev program : List Item
program =
    Item.globl (text "main")
    ∷ Item.label (text "main")
    ∷ Item.instr Op.mov (reg64 Reg.rax) (imm (negsuc 41))
    ∷ Item.instr Op.movsx (reg64 Reg.rcx) (record (mem Reg.rbp (negsuc 7)) { width = width_8 })
    ∷ Item.instr Op.call (target (text "f")) no_operand
    ∷ Item.instr Op.ret no_operand no_operand
    ∷ Item.section (text ".rodata") 1 2
    ∷ Item.bytes (104 ∷ 0 ∷ [])
    ∷ Item.directive (text ".section .note.GNU-stack,\"\",@progbits")
    ∷ []

program-text :
    write program
    ≡ text
        "  .globl main\nmain:\n  mov $-42, %rax\n  movsbq -8(%rbp), %rcx\n  call f\n  ret\n  .section .rodata\n  .byte 104\n  .byte 0\n  .section .note.GNU-stack,\"\",@progbits\n"
unfolding write decimal_ℤ decimal reg64_name
program-text = refl

program-Prints : All Prints program
unfolding is_symbol is_alpha is_word named_flags
program-Prints = (
  refl,
  (
    refl,
    (
      binary refl (register Reg.rax 64 refl (inr (inr refl)))
          (immediate (negsuc 41) refl (omega arith)),
      (
        extend refl (inl refl) (register Reg.rcx 64 refl (inr (inr refl)))
            (memory Reg.rbp (negsuc 7) 8 refl (omega arith)),
        (
          unary refl (symbol (text "f") refl refl) refl,
          (
            nullary refl refl refl,
            ((refl, refl, refl), ((omega arith, (omega arith, tt)), (inr refl, tt))),
          ),
        ),
      ),
    ),
  ),
)

parse-write_example : parse (write program) ≡ ok (readings program)
parse-write_example = parse-write program program-Prints

build_object-write_example :
    (parse (write program) >>= build_object) ≡ build_object (map noted program)
build_object-write_example =
    build_object-write program program-Prints
      (tt, (tt, (refl, (refl, (refl, (refl, (tt, (refl, (tt, tt)))))))))

parse_line-ends_example :
    parse_line_fuel 10 (text "a: b: ret") [] ≡ parse_line (text "a: b: ret") []
parse_line-ends_example = parse_line-ends 10 (text "a: b: ret") [] (omega arith)
