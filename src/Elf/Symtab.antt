-- ===== src/Elf/Symtab.antt =====
-- The symbol table of a relocatable object: Elf_WriteStr, Elf_SectionIndex and Elf_WriteSymtab of src/util/elf.c. The
-- fields sym_size and sym_other are 0 in the objects that the encoder and the linker make, and so in the entries.
use ivan_cc.Prelude.{
  ℕ, ◌+◌, ◌*◌, ◌%◌, ◌^◌, none, some, List, [], ◌∷◌, ◌++◌, length, get_elem?, set, ◌==◌,
  if◌then◌else◌,
}
use ivan_cc.Prelude.Name.{Name}
use ivan_cc.Elf.Object.{Elf, Sym, Buf, buf_data, little, bind_local, bind_global}
use ivan_cc.Elf.Buffer.{zeros}

-- `Elf64_Sym`, and its size.
pub record Entry : Type 0 where
  pub name : ℕ
  pub info : ℕ
  pub shndx : ℕ
  pub value : ℕ

abbrev pub entry_size : ℕ
entry_size = 24

abbrev pub entry_bytes : Entry → List ℕ
entry_bytes e =
    little 4 e.name
    ++ little 1 e.info
    ++ little 1 0
    ++ little 2 e.shndx
    ++ little 8 e.value
    ++ little 8 0

-- ELF_ST_INFO: the type has the four low bits.
abbrev pub st_info : ℕ → ℕ → ℕ
st_info bind type = bind * 16 + type % 16

-- The name with its NUL; it begins at the length of the table.
abbrev pub write_str : Name → Buf → Buf
write_str name strtab = buf_data (name ++ 0 ∷ []) strtab

abbrev pub str_offset : Buf → ℕ
str_offset strtab = length strtab % 2 ^ 32

-- `secidx` at the place of the section, 0 if there is no such section.
abbrev pub section_index : List ℕ → ℕ → ℕ
section_index secidx j = elim (get_elem? secidx j) [ none ↦ 0 | some n ↦ n ]

abbrev pub entry_of : List ℕ → Sym → ℕ → Entry
entry_of secidx sym name = record {
  name = name;
  info = st_info sym.bind sym.type;
  shndx = elim sym.sec [ none ↦ 0 | some j ↦ section_index secidx j ];
  value = elim sym.sec [ none ↦ 0 | some _ ↦ sym.value ];
}

-- `symtab`, `strtab`, `slot` and `si`.
pub record Tables : Type 0 where
  pub symtab : Buf
  pub strtab : Buf
  pub slot : List ℕ
  pub next : ℕ

abbrev pub bind_class : Sym → ℕ
bind_class sym = if sym.bind == bind_local then bind_local else bind_global

unfoldable pub write_symbol : List ℕ → ℕ → Sym → Tables → Tables
write_symbol secidx i sym t = record {
  symtab = buf_data (entry_bytes (entry_of secidx sym (str_offset t.strtab))) t.symtab;
  strtab = write_str sym.name t.strtab;
  slot = set t.slot i t.next;
  next = (t.next + 1) % 2 ^ 32;
}

-- A symbol of another class is left out of the pass.
unfoldable pub pass_symbol : ℕ → List ℕ → ℕ → Sym → Tables → Tables
pass_symbol want secidx i sym t = if bind_class sym == want then write_symbol secidx i sym t else t

-- The symbols of the class `want`, from place `i`.
unfoldable pub write_pass : ℕ → List ℕ → ℕ → List Sym → Tables → Tables
write_pass want secidx i [] t = t
write_pass want secidx i (sym ∷ syms) t =
    write_pass want secidx (i + 1) syms (pass_symbol want secidx i sym t)

abbrev pub start_tables : ℕ → Tables
start_tables nsyms = record {
  symtab = zeros entry_size;
  strtab = 0 ∷ [];
  slot = zeros nsyms;
  next = 1;
}

abbrev pub write_locals : List ℕ → List Sym → Tables
write_locals secidx syms = write_pass bind_local secidx 0 syms (start_tables (length syms))

-- The tables, and `*first_global`.
unfoldable pub write_symtab : Elf → List ℕ → Tables × ℕ
write_symtab elf secidx =
    let locals = write_locals secidx elf.syms in
    (write_pass bind_global secidx 0 elf.syms locals, locals.next)
