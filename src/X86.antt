-- ===== src/X86.antt =====
-- The processor, as its manual describes it: the specification that the generated code is held to.
pub mod Machine
pub mod Arith
pub mod Stack
