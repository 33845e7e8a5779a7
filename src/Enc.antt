-- ===== src/Enc.antt =====
-- The encoder of src/arch/x86_64/enc.c.
pub mod Rex
pub mod Mod
pub mod Grp
pub mod Opcode
pub mod Opcode2
pub mod Types
pub mod Bytes
pub mod Instr
pub mod Object
pub mod Grows
pub mod Writes
pub mod Sound
pub mod Known
pub mod Linked
mod Tests
