-- ===== src/Enc/Tests.antt =====
-- The encoder at a small list: bytes of instructions, and the theorem on its object.
use ivan_cc.Prelude.{List, [], ◌∷◌, ◌≡◌, refl, ok, negsuc, pos}
use ivan_cc.Prelude.Name.{text}
use ivan_cc.Asm.Types.{Reg, reg_num, Op, Item}
use ivan_cc.Asm.Emit
use ivan_cc.Asm.Emit.{new}
use ivan_cc.Enc.Types.{Site}
use ivan_cc.Enc.Bytes.{emit_mem_form, emit_mem, mem_mod, emit_rex}
use ivan_cc.Enc.Instr.{emit_instr, emit_mov}
use ivan_cc.Enc.Object.{Enc, build_object}
use ivan_cc.Enc.Linked.{AllLinked, build_object-AllLinked}

abbrev empty : Site
empty = record { sec = 0; bytes = []; fixes = [] }

-- `mov -8(%rbp), %rax` is 48 8b 45 f8.
load_bytes :
    (emit_instr Op.mov (Emit.reg64 Reg.rax) (Emit.mem Reg.rbp (negsuc 7)) empty).bytes
    ≡ 0x48 ∷ 0x8b ∷ 0x45 ∷ 0xf8 ∷ []
unfolding emit_instr emit_mov emit_mem_form emit_mem mem_mod emit_rex reg_num
load_bytes = refl

-- `mov $5, (%rax)` and `mov $5, %rax` get the same bytes: the kind of the destination is not looked at.
store_immediate :
    (emit_instr Op.mov (Emit.mem Reg.rax (pos 0)) (Emit.imm (pos 5)) empty).bytes
    ≡ (emit_instr Op.mov (Emit.reg64 Reg.rax) (Emit.imm (pos 5)) empty).bytes
unfolding emit_instr emit_mov
store_immediate = refl

-- `main: call f; ret`.
abbrev sample : List Item
sample =
    Emit.emit_ret
      (Emit.emit_call (text "f") (Emit.emit_label (text "main") (Emit.emit_globl (text "main") [])))

build_object-AllLinked_example : (e : Enc) × (build_object sample ≡ ok e) × AllLinked e.out
unfolding new
build_object-AllLinked_example =
    build_object-AllLinked sample (tt, (tt, ((text "f", refl), (tt, tt))))
