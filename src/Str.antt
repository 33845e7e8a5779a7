-- ===== src/Str.antt =====
-- The strings of src/util/str.c, as lists of bytes without the NUL at their end.
pub mod Chars
pub mod Split
pub mod Trim
pub mod Unescape
pub mod Number
pub mod Extension
pub mod Pieces
pub mod Digits
mod Tests
