-- ===== src/Enc/Opcode.antt =====
-- The primary opcodes: `Enc_x86_64_Opcode` of include/arch/x86_64/enc.h.
use ivan_cc.Prelude.{ℕ}

abbrev pub add_rm_r : ℕ
add_rm_r = 0x01

abbrev pub sub_rm_r : ℕ
sub_rm_r = 0x29

abbrev pub cmp_rm_r : ℕ
cmp_rm_r = 0x39

abbrev pub push_r : ℕ
push_r = 0x50

abbrev pub pop_r : ℕ
pop_r = 0x58

abbrev pub movsxd_r_rm32 : ℕ
movsxd_r_rm32 = 0x63

abbrev pub mov_rm8_r8 : ℕ
mov_rm8_r8 = 0x88

abbrev pub mov_rm_r : ℕ
mov_rm_r = 0x89

abbrev pub mov_r_rm : ℕ
mov_r_rm = 0x8B

abbrev pub lea_r_m : ℕ
lea_r_m = 0x8D

abbrev pub cqo : ℕ
cqo = 0x99

abbrev pub mov_r8_imm8 : ℕ
mov_r8_imm8 = 0xB0

abbrev pub mov_r_imm64 : ℕ
mov_r_imm64 = 0xB8

abbrev pub ret : ℕ
ret = 0xC3

abbrev pub mov_rm_imm32 : ℕ
mov_rm_imm32 = 0xC7

abbrev pub call_rel32 : ℕ
call_rel32 = 0xE8

abbrev pub jmp_rel32 : ℕ
jmp_rel32 = 0xE9

abbrev pub grp1_rm_imm32 : ℕ
grp1_rm_imm32 = 0x81

abbrev pub grp3_rm : ℕ
grp3_rm = 0xF7

abbrev pub escape : ℕ
escape = 0x0F
