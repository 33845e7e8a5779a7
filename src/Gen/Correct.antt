-- ===== src/Gen/Correct.antt =====
-- The code for an expression computes the value of the expression.
pub mod Run
pub mod Binary
pub mod Unary
pub mod Jumps
pub mod Expr
