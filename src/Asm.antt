-- ===== src/Asm.antt =====
-- The in-memory assembler list: include/arch/x86_64/asm.h and src/arch/x86_64/asm.c.
pub mod Types
pub mod Emit
