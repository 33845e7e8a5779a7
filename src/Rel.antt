-- ===== src/Rel.antt =====
-- The application of relocations: src/arch/x86_64/rel.c.
pub mod Patch
pub mod Apply
pub mod Field
pub mod Target
mod Tests
