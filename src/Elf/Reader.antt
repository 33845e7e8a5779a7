-- ===== src/Elf/Reader.antt =====
-- The reader of ELF files: Elf_ReadEhdr and Elf_ReadMem of src/util/elf.c. The code reads through pointers into the bytes
-- and checks only the length of the file header; a read behind the end is an error here. A header is read as a whole.
-- The fields that the objects in memory do not have, sh_entsize, st_size and st_other, are left out.
use ivan_cc.Prelude.{
  ℕ, zero, suc, ◌+◌, ◌-◌, ◌*◌, ◌/◌, ◌%◌, ◌^◌, leb, ltb, ◌==◌, Bool, not, ◌&&◌, if◌then◌else◌,
  Option, none, some, List, [], ◌∷◌, ◌++◌, length, take, drop, get_elem?, set, Outcome, ok, err,
  out_of_bounds, ◌>>=◌, signed,
}
use ivan_cc.Prelude.Name.{Name}
use ivan_cc.Elf.Object.{Elf, Sec, Sym, Rela, sht_progbits, empty_section, rela_add, section_at}
use ivan_cc.Elf.Exec.{ehdr_size}
use ivan_cc.Elf.Symtab.{entry_size}
use ivan_cc.Elf.Relas.{disk_size}
use ivan_cc.Elf.Relocatable.{Shdr, shdr_size, alignment, sht_symtab, sht_rela}

-- `n` bytes of the file.
unfoldable pub slice : List ℕ → ℕ → ℕ → Outcome (List ℕ)
slice file off n =
    if leb (off + n) (length file) then ok (take n (drop off file)) else err out_of_bounds

-- A little-endian number.
unfoldable pub from_little : List ℕ → ℕ
from_little [] = 0
from_little (b ∷ bs) = b + 256 * from_little bs

unfoldable pub field : List ℕ → ℕ → ℕ → ℕ
unfolding from_little
field bytes off n = from_little (take n (drop off bytes))

-- A string up to its NUL.
unfoldable pub until_nul : List ℕ → Outcome Name
until_nul [] = err out_of_bounds
until_nul (c ∷ cs) =
    let rest = until_nul cs in if c == 0 then ok [] else (rest >>= λ name. ok (c ∷ name))

unfoldable pub c_string : List ℕ → ℕ → Outcome Name
unfolding until_nul
c_string file off = until_nul (drop off file)

unfoldable pub shdr_of : List ℕ → Shdr
unfolding field
shdr_of bytes = record {
  name = field bytes 0 4;
  type = field bytes 4 4;
  flags = field bytes 8 8;
  addr = field bytes 16 8;
  offset = field bytes 24 8;
  size = field bytes 32 8;
  link = field bytes 40 4;
  info = field bytes 44 4;
  addralign = field bytes 48 8;
  entsize = field bytes 56 8;
}

-- `sh[i]`.
unfoldable pub shdr_at : List ℕ → ℕ → ℕ → Outcome Shdr
unfolding slice shdr_of
shdr_at file shoff i = do bytes ← slice file (shoff + i * shdr_size) shdr_size; ok (shdr_of bytes)

-- Elf_ReadEhdr: whether the bytes begin with the header of an ELF file.
unfoldable pub is_elf : List ℕ → Bool
is_elf (a ∷ b ∷ c ∷ d ∷ rest) =
    leb ehdr_size (length (a ∷ b ∷ c ∷ d ∷ rest))
    && (a == 0x7f && (b == 69 && (c == 76 && d == 70)))
is_elf _ = Bool.false

abbrev pub read_section : Shdr → Name → List ℕ → Sec
read_section sh name bytes = record (empty_section name sh.type sh.flags) {
  addr = sh.addr;
  addralign = alignment sh.addralign;
  bytes = bytes;
}

-- The sections that are read and `secmap`, with a place for each header before.
pub record Sections : Type 0 where
  pub secs : List Sec
  pub secmap : List (Option ℕ)

abbrev pub skip_header : Sections → Sections
skip_header s = record s { secmap = s.secmap ++ none ∷ [] }

abbrev pub keep_header : Sec → Sections → Sections
keep_header sec s = record {
  secs = s.secs ++ sec ∷ [];
  secmap = s.secmap ++ some (length s.secs) ∷ [];
}

unfoldable pub add_section : List ℕ → ℕ → Shdr → Sections → Outcome Sections
unfolding slice c_string
add_section file shstr sh s = do
  name ← c_string file (shstr + sh.name)
  bytes ← slice file sh.offset sh.size
  ok (keep_header (read_section sh name bytes) s)

-- The body of the first loop, for one header.
unfoldable pub add_header : List ℕ → ℕ → Shdr → Sections → Outcome Sections
unfolding add_section
add_header file shstr sh s =
    if sh.type == sht_progbits then add_section file shstr sh s else ok (skip_header s)

-- The first loop, over `n` headers from `i` on.
unfoldable pub read_sections : List ℕ → ℕ → ℕ → ℕ → ℕ → Sections → Outcome Sections
unfolding shdr_at add_header
read_sections file shoff shstr i zero s = ok s
read_sections file shoff shstr i (suc n) s = shdr_at file shoff i >>= λ sh.
    add_header file shstr sh s >>= λ s'. read_sections file shoff shstr (suc i) n s'

-- The names and the first loop, of the file as it is.
unfoldable pub read_own_sections : List ℕ → Outcome Sections
unfolding field shdr_at read_sections
read_own_sections file = do
  names ← shdr_at file (field file 40 8) (field file 62 2)
  read_sections file (field file 40 8) names.offset 1 (field file 60 2 - 1)
      (record { secs = []; secmap = none ∷ [] })

-- The first header of the type SYMTAB.
unfoldable pub find_symtab : List ℕ → ℕ → ℕ → ℕ → Outcome (Option Shdr)
unfolding shdr_at
find_symtab file shoff i zero = ok none
find_symtab file shoff i (suc n) = shdr_at file shoff i >>= λ sh.
    if sh.type == sht_symtab then ok (some sh) else find_symtab file shoff (suc i) n

-- `secmap[i]`, where there is one.
abbrev pub mapped : List (Option ℕ) → ℕ → Option ℕ
mapped secmap i = elim (get_elem? secmap i) [ none ↦ none | some place ↦ place ]

unfoldable pub sym_of : List (Option ℕ) → Name → List ℕ → Sym
unfolding field
sym_of secmap name bytes = record {
  name = name;
  sec = if field bytes 6 2 == 0 then none else mapped secmap (field bytes 6 2);
  value = field bytes 8 8;
  bind = field bytes 4 1 / 16;
  type = field bytes 4 1 % 16;
}

-- The second loop, over `n` entries from `i` on.
unfoldable pub read_symbols :
    List ℕ → ℕ → ℕ → List (Option ℕ) → ℕ → ℕ → List Sym → Outcome (List Sym)
unfolding slice c_string sym_of
read_symbols file syms symstr secmap i zero out = ok out
read_symbols file syms symstr secmap i (suc n) out =
    slice file (syms + i * entry_size) entry_size >>= λ bytes.
    c_string file (symstr + field bytes 0 4) >>= λ name.
    read_symbols file syms symstr secmap (suc i) n (out ++ sym_of secmap name bytes ∷ [])

-- `symmap[si]`: the entry with the number 0 is no symbol.
unfoldable pub symmap : ℕ → ℕ → Option ℕ
symmap nsyms zero = none
symmap nsyms (suc i) = if ltb (suc i) nsyms then some i else none

unfoldable pub rela_of : ℕ → List ℕ → Rela
unfolding field symmap
rela_of nsyms bytes = record {
  offset = field bytes 0 8;
  sym = symmap nsyms (field bytes 8 8 / 2 ^ 32);
  type = field bytes 8 8 % 2 ^ 32;
  addend = signed 64 (field bytes 16 8);
}

-- The inner loop, over `n` relocations from `r` on, which are added to the section.
unfoldable pub read_relas : List ℕ → ℕ → ℕ → ℕ → ℕ → Sec → Outcome Sec
unfolding slice rela_of
read_relas file table nsyms r zero target = ok target
read_relas file table nsyms r (suc n) target =
    slice file (table + r * disk_size) disk_size >>= λ bytes.
    read_relas file table nsyms (suc r) n (rela_add (rela_of nsyms bytes) target)

-- The relocations of the section at a place; a header of no section is left out.
unfoldable pub add_relas : List ℕ → ℕ → Shdr → Option ℕ → List Sec → Outcome (List Sec)
unfolding read_relas
add_relas file nsyms sh none secs = ok secs
add_relas file nsyms sh (some place) secs = do
  target ← section_at secs place
  target' ← read_relas file sh.offset nsyms 0 (sh.size / disk_size) target
  ok (set secs place target')

-- The last loop, over `n` headers from `i` on.
unfoldable pub read_rela_sections :
    List ℕ → ℕ → ℕ → List (Option ℕ) → ℕ → ℕ → List Sec → Outcome (List Sec)
unfolding shdr_at add_relas
read_rela_sections file shoff nsyms secmap i zero secs = ok secs
read_rela_sections file shoff nsyms secmap i (suc n) secs = shdr_at file shoff i >>= λ sh.
    (if sh.type == sht_rela then add_relas file nsyms sh (mapped secmap sh.info) secs else ok secs)
    >>= λ secs'. read_rela_sections file shoff nsyms secmap (suc i) n secs'

-- `nsyms` and the symbols, of no entries where there is no symbol table.
unfoldable pub read_symtab : List ℕ → ℕ → List (Option ℕ) → Option Shdr → Outcome (ℕ × List Sym)
unfolding shdr_at read_symbols
read_symtab file shoff secmap none = ok (0, [])
read_symtab file shoff secmap (some sh) = do
  strings ← shdr_at file shoff sh.link
  syms ← read_symbols file sh.offset strings.offset secmap 1 (sh.size / entry_size - 1) []
  ok (sh.size / entry_size, syms)

-- Elf_ReadMem; `none` is NULL.
unfoldable pub read_mem : List ℕ → Outcome (Option Elf)
unfolding is_elf field read_own_sections find_symtab read_symtab read_rela_sections
read_mem file = if not (is_elf file) then ok none else do
  let shoff = field file 40 8
  let shnum = field file 60 2
  s ← read_own_sections file
  symtab ← find_symtab file shoff 0 shnum
  t ← read_symtab file shoff s.secmap symtab
  secs ← read_rela_sections file shoff t.0 s.secmap 0 shnum s.secs
  ok (
      some (record {
        type = field file 16 2;
        machine = field file 18 2;
        entry = field file 24 8;
        secs = secs;
        syms = t.1;
      }))
