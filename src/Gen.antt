-- ===== src/Gen.antt =====
-- The code generator: src/arch/x86_64/gen.c.
pub mod State
pub mod Expr
pub mod Stmt
pub mod Frame
pub mod Program
pub mod Value
pub mod Correct
pub mod Align
pub mod Slots
pub mod Accepts
pub mod Returns
mod Tests
