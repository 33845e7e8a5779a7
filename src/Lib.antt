-- ===== src/Lib.antt =====
-- ivan-cc: a compiler for a subset of C, an assembler and a linker for x86-64.
--
-- The program is a chain. The parser builds a syntax tree (src/ast), the analyser annotates it (src/ast/sem.c), the
-- code generator walks it and appends instructions to one list (src/arch/x86_64/gen.c and asm.c), and the encoder
-- turns the list into an ELF object (src/arch/x86_64/enc.c and src/util/elf.c), which the linker joins with others
-- (src/util/link.c). Between the list and the encoder there may be text: `cc -S` prints the list and `as` parses it
-- again (src/arch/x86_64/txt.c). src/as.c and src/ld.c are the command lines of the assembler and the linker. The
-- library follows the chain from the tree that the parser makes to the linked object.
--
--   Prelude       what the other modules share: tests, lists, signed integers, words, C strings, results.
--   Ast           include/ast/ast.h. A node kind is a constructor of Node, `an_type` and `an_line` are its Info, a chain
--                 through `an_next` is a Nodes, and a pointer to a variable is its place among the locals.
--   Ast.Make      the constructors of src/ast/ast.c, Ast.Scope its locals and its table of string literals.
--   Asm           include/arch/x86_64/asm.h and src/arch/x86_64/asm.c: Types has registers, operands and items, Emit a
--                 function on the list for each Asm_x86_64_Emit*.
--   Sem           src/ast/sem.c. Types has the queries, Arith Sem_Arith, Walk Sem_Node and Sem_Analyze: a tree that the C
--                 code changes in place is a tree that the function returns, and a message an error with its line.
--   Sem.Shape     the trees that the grammar makes, Sem.Typed and Sem.Checked what the analysis makes of them.
--   Gen           src/arch/x86_64/gen.c. State has the record of the static variables and the small helpers, Expr and
--                 Stmt the two walks (Gen_x86_64_EmitExpr and Gen_x86_64_EmitStmt), Frame the slots of locals
--                 (Gen_x86_64_AssignLvarOffsets), Program the sections, the functions and Gen_x86_64_BuildProgram.
--                 Log_ShowErrorAt, which ends the compiler, and a read of a null pointer are errors of type Error.
--   Gen.Value     what C says of an expression of numbers, with 64-bit arithmetic: its value, or none where the standard
--                 leaves it undefined (overflow, division by 0). It does not look at the generator.
--   Gen.Correct   the correctness of expressions: Run follows lists of instructions, Unary, Binary and Jumps the
--                 operators, Expr joins them by induction on the tree.
--   Gen.Align     the height of the stack along the code of expressions: Labels has the heights of the labels, Step what
--                 each kind of item does, Pieces the pieces of an expression, Goes code behind code, Expr the expressions.
--   Gen.Accepts   the expressions that the generator accepts, Gen.Returns the statements, functions and programs.
--   Gen.Slots     the slots of locals.
--   X86           no code of the repository: what the manual says of the instructions that the generator uses. Machine
--                 runs a list in one pass, with jumps forward, and refuses what it does not know; Arith has the
--                 arithmetic of words; Stack follows %rsp and %rbp alone, on every way through a list.
--   Elf           src/util/elf.c: Object has sections, symbols and relocations in memory, with places for pointers,
--                 Buffer the padding of buffers, Exec the file of an executable (Elf_WriteExec); Lookup is about the
--                 search for a section, Extends about sections that grow, Loads about what a loader finds in the file.
--                 Symtab has the symbol table of a relocatable object (Elf_WriteSymtab), Relas the bodies of its
--                 relocations (Elf_WriteRelas); Entries and Listed are about the entries of the table, Words about the
--                 fields of a file; Loaded and Tabled read the program headers and the symbol table field by field.
--                 Relocatable has the file of such an object (Elf_WriteRel), Reader Elf_ReadMem; Laid and Placed are
--                 about the places in the file, Found reads them field by field, Fields, Reread and Restored are about
--                 reading it back.
--   Enc           include/arch/x86_64/enc.h and src/arch/x86_64/enc.c. Rex, Mod, Grp, Opcode and Opcode2 are the
--                 enumerations, Bytes the pieces of an instruction, Instr Enc_x86_64_EmitInstr, Object the labels,
--                 symbols, relocations and Enc_x86_64_BuildObject.
--   Enc.Grows     what a piece of an instruction adds to a section, Enc.Writes what an instruction adds, Enc.Sound the
--                 states of the encoder along the list, Enc.Known the search for symbols, Enc.Linked the finished object.
--   Rel           src/arch/x86_64/rel.c. Patch writes a field, Apply computes and applies relocations; Field reads a
--                 field back, Target follows the field of a call or of an address that is relative to %rip.
--   Link          src/util/link.c. Index has the searches, Merge the three phases of Link_Merge, Place the load addresses,
--                 Exec Link_CheckDefined, Link_Exec and Link_Run. Elf_Read is a parameter of the functions that call it.
--   Link.Whole    the objects that can be linked; Sections, Symbols and Merged go through the phases of a merge, Applied
--                 through the relocations, Runs through a whole link; Resolved, Definitions and Joined follow definitions
--                 through a merge; Apart is about load addresses.
--   Str           src/util/str.c: Split Str_Split, Trim Str_Trim, Unescape Str_Unescape, Extension
--                 Str_ChangeOrAppendExt; Chars and Number have what the code uses of the C library, the character classes,
--                 strtol and %ld. Pieces, Digits and the end of Unescape are about them.
--   Txt           src/arch/x86_64/txt.c: Names the tables, Write the printing of items (Txt_x86_64_Att_Write), Pattern one
--                 function for each regular expression, Operand, Instr, Directive and Line the parser, up to
--                 Txt_x86_64_Att_Parse.
--   Txt.Printable the items that can be printed and read back, and their readings: a run of bytes is one item for each
--                 byte, a directive of a section is that section, the directive .file stays. Scan, Registers, Constants,
--                 Symbols, Memory, Operands, Mnemonics, Arguments, Statements, Sentences and Lines go up from characters
--                 to lines, RoundTrip joins them, Assembled adds the encoder; Ends is about the fuel of a line.
--   Ld            src/ld.c: Command has Ld_PlaceName, Ld_ParsePlace and main, with the files as a parameter and the
--                 written file as a value; Ends is about how it ends.
--   As            src/as.c: Command has As_Assemble and main, Printed is about the text that the compiler prints.
--
-- Bounds. Numbers are unbounded, and a word is a number below 2 ^ 64 with its wrap-around written out; values of
-- expressions are signed 64-bit integers. Three functions need fuel: `decimal`, whose fuel is the number itself plus
-- 1, the loop of Elf_BufAlign, whose fuel is the alignment plus 1, and the parser of a line, whose fuel is the length
-- of the line plus 1; none uses it up. The addresses and offsets of the linker are words of 64 bits with their
-- wrap-around. The sizes of types and the offsets of locals are numbers where the code has an int: the lengths of arrays
-- are those that are not negative, and a frame whose sizes or sums overflow an int is an error. The chain of
-- parameters is a list of places, and one with a place twice, whose loop never ends in C, is an error. Memory for
-- lists, strings and buffers is not bounded, so the growth of arrays is not modelled.
--
-- Not modelled: the generated lexer and parser, the command line of the compiler (src/cc.c) and everything that is
-- I/O. The field sec_entsize of sections and the fields st_size and st_other of symbols, which the encoder and the
-- linker leave at 0, are left out, also where Elf_ReadMem copies them. A read behind the end of a file, which
-- Elf_ReadMem does not check, is an error. Variables, memory and loops have no semantics here: the machine of X86
-- runs expressions of numbers, and of the code of the other expressions only the stack is followed.
pub mod Prelude
pub mod Ast
pub mod Asm
pub mod Gen
pub mod X86
pub mod Sem
pub mod Elf
pub mod Enc
pub mod Rel
pub mod Link
pub mod Str
pub mod Txt
pub mod Ld
pub mod As
