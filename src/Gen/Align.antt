-- ===== src/Gen/Align.antt =====
-- The height of the stack along the generated code.
pub mod Labels
pub mod Step
pub mod Pieces
pub mod Goes
pub mod Expr
