-- ===== src/Enc/Rex.antt =====
-- The bits of a REX prefix: `Enc_x86_64_Rex` of include/arch/x86_64/enc.h.
use ivan_cc.Prelude.{ℕ}

abbrev pub base : ℕ
base = 0x40

abbrev pub w : ℕ
w = 0x08

abbrev pub r : ℕ
r = 0x04

abbrev pub b : ℕ
b = 0x01
