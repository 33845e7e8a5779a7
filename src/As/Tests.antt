-- ===== src/As/Tests.antt =====
-- A file of the assembler, and the theorem at it.
use ivan_cc.Prelude.{Option, some, List, [], ◌∷◌, All, ◌≡◌, refl, err, usage, map}
use ivan_cc.Prelude.Name.{Name, text}
use ivan_cc.Asm.Types.{Item, Op, no_operand}
use ivan_cc.Str.Chars.{is_alpha}
use ivan_cc.Str.Extension.{change_or_append_ext}
use ivan_cc.Txt.Pattern.{is_word}
use ivan_cc.Txt.Write.{write}
use ivan_cc.Txt.Printable.{Prints, nullary, is_symbol}
use ivan_cc.Txt.Assembled.{noted}
use ivan_cc.As.Command.{main, arguments, argument}
use ivan_cc.As.Printed.{compiled, main-write}

abbrev program : List Item
program = Item.label (text "f") ∷ Item.instr Op.ret no_operand no_operand ∷ []

program-Prints : All Prints program
unfolding is_symbol is_alpha is_word
program-Prints = (refl, (nullary refl refl refl, tt))

abbrev content : Name → Option Name
content path = some (write program)

usage_run : main content (text "-x" ∷ text "f.s" ∷ []) ≡ err usage
unfolding main arguments argument
usage_run = refl

main-write_example :
    main content (text "f.s" ∷ [])
    ≡ compiled (change_or_append_ext (text "f.s") (text ".o")) (map noted program)
main-write_example =
    main-write content (text "f.s") program refl refl program-Prints (tt, (refl, tt))
