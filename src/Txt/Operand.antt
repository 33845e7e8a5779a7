-- ===== src/Txt/Operand.antt =====
-- Txt_x86_64_Att_ParseOperand of src/arch/x86_64/txt.c.
use ivan_cc.Prelude.{if◌then◌else◌, Option, none, some, ℤ, pos, signed, to_word}
use ivan_cc.Prelude.Name.{Name}
use ivan_cc.Asm.Types.{Reg, Width, Operand}
use ivan_cc.Asm.Emit.{reg_width, imm, mem, rip, target}
use ivan_cc.Str.Chars.{null}
use ivan_cc.Str.Number.{strtol}
use ivan_cc.Txt.Names.{reg_by_name}
use ivan_cc.Txt.Pattern.{match_register, match_immediate, match_rip, match_memory, match_target}

abbrev pub register_operand : Option (Reg × Width) → Option Operand
register_operand none = none
register_operand (some r) = some (reg_width r.0 r.1)

-- `(int) strtol`, for a displacement that is there.
abbrev pub disp_of : Name → ℤ
disp_of disp = if null disp then pos 0 else signed 32 (to_word 32 (strtol disp))

abbrev pub memory_operand : ℤ → Option (Reg × Width) → Option Operand
memory_operand disp none = none
memory_operand disp (some r) = some (mem r.0 disp)

unfoldable pub parse_operand : Name → Option Operand
parse_operand t = elim (match_register t) [
  | some name ↦ register_operand (reg_by_name name)
  | none ↦ elim (match_immediate t) [
    | some value ↦ some (imm (strtol value))
    | none ↦ elim (match_rip t) [
      | some label ↦ some (rip label)
      | none ↦ elim (match_memory t) [
        | some m ↦ memory_operand (disp_of m.0) (reg_by_name m.1)
        | none ↦ if match_target t then some (target t) else none
      ]
    ]
  ]
]
