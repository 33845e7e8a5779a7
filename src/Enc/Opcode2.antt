-- ===== src/Enc/Opcode2.antt =====
-- The second bytes of the two-byte opcodes: `Enc_x86_64_Opcode2` of include/arch/x86_64/enc.h.
use ivan_cc.Prelude.{ℕ}

abbrev pub syscall : ℕ
syscall = 0x05

abbrev pub je_rel32 : ℕ
je_rel32 = 0x84

abbrev pub jne_rel32 : ℕ
jne_rel32 = 0x85

abbrev pub sete : ℕ
sete = 0x94

abbrev pub setne : ℕ
setne = 0x95

abbrev pub setl : ℕ
setl = 0x9C

abbrev pub setle : ℕ
setle = 0x9E

abbrev pub imul_r_rm : ℕ
imul_r_rm = 0xAF

abbrev pub movzx_r_rm8 : ℕ
movzx_r_rm8 = 0xB6

abbrev pub movsx_r_rm8 : ℕ
movsx_r_rm8 = 0xBE
