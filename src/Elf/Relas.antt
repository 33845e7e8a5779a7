-- ===== src/Elf/Relas.antt =====
-- The relocations of a relocatable object in the file: Elf_WriteRelas of src/util/elf.c.
use ivan_cc.Prelude.{
  ℕ, ◌+◌, ◌*◌, ◌/◌, ◌%◌, ◌^◌, Option, none, some, List, [], ◌∷◌, ◌++◌, ◌≡◌, sym, get_elem?, ℤ,
  to_word,
}
use ivan_cc.Elf.Object.{Elf, Sym, Rela, Buf, buf_data, little}
use ivan_cc.Elf.Loads.{LiesAt}
use ivan_cc.Elf.Symtab.{write_symtab}
use ivan_cc.Elf.Listed.{InOrder}

-- `Elf64_Rela`, and its size.
pub record Disk : Type 0 where
  pub offset : ℕ
  pub info : ℕ
  pub addend : ℤ

abbrev pub disk_size : ℕ
disk_size = 24

abbrev pub disk_bytes : Disk → List ℕ
disk_bytes d = little 8 d.offset ++ little 8 d.info ++ little 8 (to_word 64 d.addend)

-- ELF_R_INFO.
abbrev pub r_info : ℕ → ℕ → ℕ
r_info symbol type = symbol * 2 ^ 32 + type % 2 ^ 32

-- `symi`: the slot at the place of the symbol, 0 for NULL.
abbrev pub symbol_slot : List ℕ → Option ℕ → ℕ
symbol_slot slot none = 0
symbol_slot slot (some i) = elim (get_elem? slot i) [ none ↦ 0 | some n ↦ n ]

abbrev pub disk_of : List ℕ → Rela → Disk
disk_of slot rel = record {
  offset = rel.offset;
  info = r_info (symbol_slot slot rel.sym) rel.type;
  addend = rel.addend;
}

-- The loop of Elf_WriteRelas, behind what is in the buffer.
unfoldable pub write_relas : List ℕ → List Rela → Buf → Buf
write_relas slot [] out = out
write_relas slot (rel ∷ relas) out =
    write_relas slot relas (buf_data (disk_bytes (disk_of slot rel)) out)

-- A relocation in the file, by the entry of its symbol.
pub record Refers (elf : Elf) (secidx : List ℕ) (rel : Rela) (i : ℕ) (symbol : Sym) (r : ℕ)
    (body : List ℕ) : Type 0 where
  pub listed : InOrder secidx i symbol (write_symtab elf secidx).0 (write_symtab elf secidx).1
  pub disk : Disk
  pub stored : LiesAt body (r * disk_size) (disk_bytes disk)
  pub number : get_elem? (write_symtab elf secidx).0.slot i ≡ some (disk.info / 2 ^ 32)
  pub type : disk.info % 2 ^ 32 ≡ rel.type % 2 ^ 32
  pub offset : disk.offset ≡ rel.offset
  pub addend : disk.addend ≡ rel.addend
