-- ===== src/Sem.antt =====
-- The semantic analysis of src/ast/sem.c.
pub mod Types
pub mod Arith
pub mod Walk
pub mod Shape
pub mod Typed
pub mod Checked
mod Tests
