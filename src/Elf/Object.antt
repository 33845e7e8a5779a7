-- ===== src/Elf/Object.antt =====
-- ELF objects in memory: the sections, symbols and relocations of src/util/elf.c and include/util/elf.h. A pointer to a
-- section or to a symbol is its place in its array, and a buffer is the list of its bytes.
use ivan_cc.Prelude.{
  Outcome, ok, err, null_pointer, get_elem?, ℕ, zero, suc, ◌+◌, ◌/◌, ◌%◌, Option, none, some, List,
  [], ◌∷◌, ◌++◌, ℤ, if◌then◌else◌, length,
}
use ivan_cc.Prelude.Name.{Name, name_eq}

abbrev pub Buf : Type 0
Buf = List ℕ

-- `uint8_t` of a byte that comes as an `int` that is not negative.
abbrev pub buf_byte : ℕ → Buf → Buf
buf_byte value buf = buf ++ value % 256 ∷ []

abbrev pub buf_data : List ℕ → Buf → Buf
buf_data data_ buf = buf ++ data_

-- The array that the loops of Elf_BufU32 and Elf_BufU64 fill: `n` bytes of `value`, the lowest first.
abbrev pub little : ℕ → ℕ → List ℕ
little zero value = []
little (suc n) value = value % 256 ∷ little n (value / 256)

abbrev pub buf_u32 : ℕ → Buf → Buf
buf_u32 value buf = buf_data (little 4 value) buf

abbrev pub buf_u64 : ℕ → Buf → Buf
buf_u64 value buf = buf_data (little 8 value) buf

abbrev pub et_rel : ℕ
et_rel = 1

abbrev pub em_x86_64 : ℕ
em_x86_64 = 62

abbrev pub sht_progbits : ℕ
sht_progbits = 1

abbrev pub shf_alloc : ℕ
shf_alloc = 0x2

abbrev pub shf_execinstr : ℕ
shf_execinstr = 0x4

abbrev pub bind_local : ℕ
bind_local = 0

abbrev pub bind_global : ℕ
bind_global = 1

abbrev pub type_notype : ℕ
type_notype = 0

abbrev pub type_object : ℕ
type_object = 1

abbrev pub type_func : ℕ
type_func = 2

-- `Elf_Rela`; the symbol is NULL or a place in the table.
pub record Rela : Type 0 where
  pub offset : ℕ
  pub sym : Option ℕ
  pub type : ℕ
  pub addend : ℤ

-- `Elf_Sec`.
pub record Sec : Type 0 where
  pub name : Name
  pub type : ℕ
  pub flags : ℕ
  pub addr : ℕ
  pub addralign : ℕ
  pub bytes : Buf
  pub relas : List Rela

-- `Elf_Sym`; a section that is NULL marks an undefined symbol.
pub record Sym : Type 0 where
  pub name : Name
  pub sec : Option ℕ
  pub value : ℕ
  pub bind : ℕ
  pub type : ℕ

pub record Elf : Type 0 where
  pub type : ℕ
  pub machine : ℕ
  pub entry : ℕ
  pub secs : List Sec
  pub syms : List Sym

abbrev pub new : ℕ → ℕ → Elf
new type machine = record { type = type; machine = machine; entry = 0; secs = []; syms = [] }

abbrev pub empty_section : Name → ℕ → ℕ → Sec
empty_section name type flags = record {
  name = name;
  type = type;
  flags = flags;
  addr = 0;
  addralign = 1;
  bytes = [];
  relas = [];
}

-- The new section is at the end of the array.
abbrev pub section_add : Name → ℕ → ℕ → Elf → Elf
section_add name type flags elf = record elf {
  secs = elf.secs ++ empty_section name type flags ∷ [];
}

-- The loop of Elf_SectionFind, from place `i`.
unfoldable pub find_sec : Name → ℕ → List Sec → Option ℕ
find_sec name i [] = none
find_sec name i (sec ∷ secs) =
    let rest = find_sec name (i + 1) secs in if name_eq sec.name name then some i else rest

abbrev pub section_find : Elf → Name → Option ℕ
section_find elf name = find_sec name 0 elf.secs

-- The place of the section, and the object.
unfoldable pub section_get : Name → ℕ → ℕ → Elf → ℕ × Elf
section_get name type flags elf = elim (section_find elf name) [
  | some i ↦ (i, elf)
  | none ↦ (length elf.secs, section_add name type flags elf)
]

unfoldable pub symbol_add : Sym → Elf → Elf
symbol_add sym elf = record elf { syms = elf.syms ++ sym ∷ [] }

-- The loop of Elf_SymbolFind, from place `i`.
unfoldable pub find_sym : Name → ℕ → List Sym → Option ℕ
find_sym name i [] = none
find_sym name i (sym ∷ syms) =
    let rest = find_sym name (i + 1) syms in if name_eq sym.name name then some i else rest

abbrev pub symbol_find : Elf → Name → Option ℕ
symbol_find elf name = find_sym name 0 elf.syms

abbrev pub rela_add : Rela → Sec → Sec
rela_add rela target = record target { relas = target.relas ++ rela ∷ [] }

-- The section at a place.
abbrev pub section_at : List Sec → ℕ → Outcome Sec
section_at secs i = elim (get_elem? secs i) [ none ↦ err null_pointer | some sec ↦ ok sec ]
