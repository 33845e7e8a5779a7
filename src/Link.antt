-- ===== src/Link.antt =====
-- The linker: src/util/link.c.
pub mod Index
pub mod Whole
pub mod Merge
pub mod Sections
pub mod Symbols
pub mod Merged
pub mod Resolved
pub mod Definitions
pub mod Joined
pub mod Applied
pub mod Place
pub mod Apart
pub mod Exec
pub mod Runs
mod Tests
