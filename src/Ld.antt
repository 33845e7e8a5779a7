-- ===== src/Ld.antt =====
-- The command line of the linker: src/ld.c.
pub mod Command
pub mod Ends
mod Tests
