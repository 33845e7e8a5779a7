-- ===== src/Enc/Mod.antt =====
-- The mod field of ModRM: `Enc_x86_64_Mod` of include/arch/x86_64/enc.h.
use ivan_cc.Prelude.{ℕ}

abbrev pub indirect : ℕ
indirect = 0

abbrev pub disp8 : ℕ
disp8 = 1

abbrev pub disp32 : ℕ
disp32 = 2

abbrev pub direct : ℕ
direct = 3
