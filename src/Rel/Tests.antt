-- ===== src/Rel/Tests.antt =====
-- A relocation of a call, and the theorem at it.
use ivan_cc.Prelude.{ℕ, some, List, [], ◌∷◌, ◌≡◌, refl, negsuc, ◌-ℤ◌, ok, inr, arith}
use ivan_cc.Prelude.Name.{text}
use ivan_cc.Elf.Object.{Elf, Sec, Sym, Rela, empty_section}
use ivan_cc.Rel.Apply.{rel_one, symbol_addr, r_x86_64_plt32}
use ivan_cc.Rel.Patch.{patch_le}
use ivan_cc.Rel.Field.{Patched, patch_le-Patched}
use ivan_cc.Rel.Target.{with_bytes, LeadsTo, rel_one-LeadsTo}

-- `call f`, a nop and `f: ret` in .text at 0x401000.
abbrev call_f : Rela
call_f = record { offset = 1; sym = some 0; type = r_x86_64_plt32; addend = negsuc 3 }

abbrev code : Sec
code = record (empty_section (text ".text") 1 6) {
  addr = 0x401000;
  bytes = 0xe8 ∷ 0 ∷ 0 ∷ 0 ∷ 0 ∷ 0x90 ∷ 0xc3 ∷ [];
  relas = call_f ∷ [];
}

abbrev f : Sym
f = record { name = text "f"; sec = some 0; value = 6; bind = 1; type = 2 }

abbrev object : Elf
object = record { type = 1; machine = 62; entry = 0; secs = code ∷ []; syms = f ∷ [] }

rel_one-LeadsTo_example :
    (new : List ℕ) × (rel_one 0 call_f object ≡ ok (with_bytes 0 code new object))
    × LeadsTo 0x401006 0x401001 1 code.bytes new
unfolding symbol_addr ◌-ℤ◌
rel_one-LeadsTo_example =
    rel_one-LeadsTo 0 call_f object code f 0x401006 refl refl refl (inr refl) refl (omega arith)
      (omega arith)

-- Four bytes written at 1.
patch_le-Patched_example :
    (new : List ℕ) × (patch_le 1 0x12345678 4 (1 ∷ 2 ∷ 3 ∷ 4 ∷ 5 ∷ 6 ∷ []) ≡ ok new)
    × Patched 1 4 0x12345678 (1 ∷ 2 ∷ 3 ∷ 4 ∷ 5 ∷ 6 ∷ []) new
patch_le-Patched_example =
    patch_le-Patched 1 0x12345678 4 (1 ∷ 2 ∷ 3 ∷ 4 ∷ 5 ∷ 6 ∷ []) (omega arith)
