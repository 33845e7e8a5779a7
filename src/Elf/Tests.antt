-- ===== src/Elf/Tests.antt =====
-- The file of a small executable and the symbol table of a small object, and the theorems at them.
use ivan_cc.Prelude.{negsuc, none, ok, some, [], ◌∷◌, ◌≡◌, refl, drop, take, arith, ◌-ℤ◌}
use ivan_cc.Prelude.Name.{text}
use ivan_cc.Elf.Object.{Rela, Elf, Sec, Sym, empty_section}
use ivan_cc.Elf.Symtab.{write_symtab, write_pass, write_symbol, pass_symbol}
use ivan_cc.Elf.Tabled.{Ordered, write_symtab-Ordered}
use ivan_cc.Elf.Exec.{segments, write_exec, offsets, write_phdrs, write_bodies}
use ivan_cc.Elf.Buffer.{place_offset}
use ivan_cc.Elf.Relocatable.{
  write_rel, all_parts, add_names, write_parts, named_parts, shstr_part, rela_parts, indices,
  align_up, headers, end_of_bodies, part_bodies, table_bytes, shdr_bytes,
}
use ivan_cc.Elf.Reader.{
  Sections, read_mem, is_elf, field, from_little, read_own_sections, shdr_at, shdr_of, slice,
  c_string, until_nul, add_header, add_section, read_sections, find_symtab, read_symtab,
  read_symbols, sym_of, symmap, read_rela_sections, add_relas, read_relas, rela_of,
}
use ivan_cc.Elf.Fields.{HasNoNul}
use ivan_cc.Elf.Restored.{IsWritable, FitsSecs, progbits, read_own_sections-write_rel}
use ivan_cc.Elf.Loaded.{Loaded, write_exec-Loaded}
use ivan_cc.Elf.Found.{Found, write_rel-Found}
use ivan_cc.Elf.Relocatable.{user_part}

-- A section that is loaded at 0x401000, behind one that is not loaded.
abbrev code : Sec
code = record (empty_section (text ".text") 1 6) { addr = 0x401000; bytes = 0xe8 ∷ 0xc3 ∷ [] }

abbrev program : Elf
program = record {
  type = 2;
  machine = 62;
  entry = 0x401000;
  secs = record (empty_section (text ".note") 1 0) { bytes = 1 ∷ [] } ∷ code ∷ [];
  syms = [];
}

-- The magic number, and the bytes of the section at 0x1000.
program_magic : take 4 (write_exec program) ≡ 0x7f ∷ 69 ∷ 76 ∷ 70 ∷ []
unfolding write_exec
program_magic = refl

program_code : drop 0x1000 (write_exec program) ≡ 0xe8 ∷ 0xc3 ∷ []
unfolding write_exec segments offsets write_phdrs write_bodies place_offset ◌-ℤ◌
program_code = refl

write_exec-Loaded_example : Loaded program 0 code (write_exec program)
unfolding segments
write_exec-Loaded_example = write_exec-Loaded program 0 code (omega arith) (omega arith) refl

-- A global symbol before a local one.
abbrev main_symbol : Sym
main_symbol = record { name = text "m"; sec = some 0; value = 0; bind = 1; type = 2 }

abbrev local_symbol : Sym
local_symbol = record { name = text "l"; sec = some 0; value = 4; bind = 0; type = 0 }

abbrev object : Elf
object = record program { type = 1; syms = main_symbol ∷ local_symbol ∷ [] }

-- The local symbol gets the first slot.
object_slots : (write_symtab object (1 ∷ 2 ∷ [])).0.slot ≡ 2 ∷ 1 ∷ []
unfolding write_symtab write_pass pass_symbol write_symbol
object_slots = refl

write_symtab-Ordered_example :
    Ordered
      (1 ∷ 2 ∷ [])
      0
      main_symbol
      (write_symtab object (1 ∷ 2 ∷ [])).0
      (write_symtab object (1 ∷ 2 ∷ [])).1
write_symtab-Ordered_example =
    write_symtab-Ordered object (1 ∷ 2 ∷ []) 0 main_symbol (omega arith) (omega arith) refl

-- A relocation on the global symbol.
abbrev on_main : Rela
on_main = record { offset = 8; sym = some 0; type = 4; addend = negsuc 3 }

-- The object as a file, and what the reader takes up of it: the sections and the symbols, the local one first.
object_read :
    read_mem (write_rel object)
    ≡ ok (
        some (record object {
          secs = progbits object.secs;
          syms = local_symbol ∷ main_symbol ∷ [];
          entry = 0;
        }))
unfolding read_mem is_elf field from_little read_own_sections shdr_at shdr_of slice c_string
    until_nul add_header add_section read_sections find_symtab read_symtab read_symbols sym_of
    symmap read_rela_sections add_relas read_relas rela_of progbits write_rel write_parts all_parts
    named_parts shstr_part rela_parts indices add_names align_up headers end_of_bodies part_bodies
    table_bytes shdr_bytes write_symtab write_pass pass_symbol write_symbol ◌-ℤ◌
object_read = refl

object_text : read_mem (text "not an object") ≡ ok none
unfolding read_mem is_elf
object_text = refl

object-IsWritable : IsWritable object
unfolding FitsSecs HasNoNul write_rel write_parts all_parts named_parts shstr_part rela_parts
    indices add_names align_up headers end_of_bodies part_bodies table_bytes shdr_bytes write_symtab
    write_pass pass_symbol write_symbol ◌-ℤ◌
object-IsWritable = record {
  secs = (
    (
      (omega arith, (omega arith, (omega arith, (omega arith, (omega arith, tt))))),
      omega arith,
      omega arith,
      omega arith,
    ),
    (
      (
        (omega arith, (omega arith, (omega arith, (omega arith, (omega arith, tt))))),
        omega arith,
        omega arith,
        omega arith,
      ),
      tt,
    ),
  );
  few = omega arith;
  names = omega arith;
  roomy = omega arith;
}

read_own_sections-write_rel_example :
    (s : Sections) × (read_own_sections (write_rel object) ≡ ok s) × (s.secs ≡ progbits object.secs)
read_own_sections-write_rel_example = read_own_sections-write_rel object object-IsWritable

write_rel-Found_example : Found (write_rel object) 2 (user_part code)
unfolding all_parts named_parts
write_rel-Found_example =
    write_rel-Found object 1 (user_part code) object-IsWritable.roomy object-IsWritable.names
      object-IsWritable.few refl
