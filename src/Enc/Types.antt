-- ===== src/Enc/Types.antt =====
-- The constants and records of include/arch/x86_64/enc.h.
use ivan_cc.Prelude.{ℕ, List, Option}
use ivan_cc.Prelude.Name.{Name}

-- `Enc_x86_64_Label`; a section is its place in the object.
pub record Label : Type 0 where
  pub name : Name
  pub sec : ℕ
  pub off : ℕ

-- `Enc_x86_64_Fix`; the name may be NULL.
pub record Fix : Type 0 where
  pub sec : ℕ
  pub off : ℕ
  pub name : Option Name
  pub type : ℕ

-- What the encoding of an instruction touches: the current section with its bytes, and the pending fixups.
pub record Site : Type 0 where
  pub sec : ℕ
  pub bytes : List ℕ
  pub fixes : List Fix

abbrev pub r_x86_64_pc32 : ℕ
r_x86_64_pc32 = 2

abbrev pub r_x86_64_plt32 : ℕ
r_x86_64_plt32 = 4

abbrev pub rm_rip : ℕ
rm_rip = 5

abbrev pub sib_base_rsp : ℕ
sib_base_rsp = 0x24
