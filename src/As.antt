-- ===== src/As.antt =====
-- The assembler: src/as.c.
pub mod Command
pub mod Printed
mod Tests
