-- ===== src/Txt.antt =====
-- The AT&T assembly text of src/arch/x86_64/txt.c: the writer and the parser.
pub mod Names
pub mod Write
pub mod Pattern
pub mod Operand
pub mod Instr
pub mod Directive
pub mod Line
pub mod Scan
pub mod Printable
pub mod Registers
pub mod Constants
pub mod Symbols
pub mod Memory
pub mod Operands
pub mod Mnemonics
pub mod Arguments
pub mod Statements
pub mod Sentences
pub mod Lines
pub mod RoundTrip
pub mod Assembled
pub mod Ends
mod Tests
