-- ===== src/Enc/Grp.antt =====
-- The opcode extensions of the groups: `Enc_x86_64_Grp` of include/arch/x86_64/enc.h.
use ivan_cc.Prelude.{ℕ}

abbrev pub add : ℕ
add = 0

abbrev pub neg : ℕ
neg = 3

abbrev pub sub : ℕ
sub = 5

abbrev pub cmp : ℕ
cmp = 7

abbrev pub idiv : ℕ
idiv = 7
