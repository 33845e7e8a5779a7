-- ===== src/Elf.antt =====
-- ELF objects: src/util/elf.c.
pub mod Object
pub mod Buffer
pub mod Lookup
pub mod Extends
pub mod Exec
pub mod Loads
pub mod Symtab
pub mod Entries
pub mod Listed
pub mod Relas
pub mod Relocatable
pub mod Reader
pub mod Laid
pub mod Placed
pub mod Fields
pub mod Words
pub mod Loaded
pub mod Tabled
pub mod Reread
pub mod Restored
pub mod Found
mod Tests
