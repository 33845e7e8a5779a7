-- ===== src/Elf/Relocatable.antt =====
-- The file of a relocatable object: Elf_WriteRel of src/util/elf.c, as the bytes that it writes. The arrays `shdrs`,
-- `bodies` and `sizes` are one list of parts, in the order of their indices, from index 1 on; the field sec_entsize is 0
-- in the objects that the encoder and the linker make, and so is sh_entsize.
use ivan_cc.Prelude.{
  ℕ, suc, ◌+◌, ◌-◌, ◌*◌, ◌/◌, ◌%◌, ◌^◌, List, [], ◌∷◌, ◌++◌, map, length, take, ◌==◌, if◌then◌else◌,
}
use ivan_cc.Prelude.Name.{Name, text}
use ivan_cc.Elf.Object.{Elf, Sec, Buf, little, et_rel}
use ivan_cc.Elf.Buffer.{zeros}
use ivan_cc.Elf.Exec.{Ehdr, ehdr_bytes, ehdr_size, write_exec}
use ivan_cc.Elf.Symtab.{write_symtab, write_str, str_offset, entry_size}
use ivan_cc.Elf.Relas.{write_relas, disk_size}

-- ELF_SHT_SYMTAB, ELF_SHT_STRTAB and ELF_SHT_RELA.
abbrev pub sht_symtab : ℕ
sht_symtab = 2

abbrev pub sht_strtab : ℕ
sht_strtab = 3

abbrev pub sht_rela : ℕ
sht_rela = 4

-- `Elf64_Shdr`, and its size.
pub record Shdr : Type 0 where
  pub name : ℕ
  pub type : ℕ
  pub flags : ℕ
  pub addr : ℕ
  pub offset : ℕ
  pub size : ℕ
  pub link : ℕ
  pub info : ℕ
  pub addralign : ℕ
  pub entsize : ℕ

abbrev pub shdr_size : ℕ
shdr_size = 64

unfoldable pub shdr_bytes : Shdr → List ℕ
shdr_bytes h =
    little 4 h.name
    ++ (little 4 h.type
        ++ (little 8 h.flags
            ++ (little 8 h.addr
                ++ (little 8 h.offset
                    ++ (little 8 h.size
                        ++ (little 4 h.link
                            ++ (little 4 h.info
                                ++ (little 8 h.addralign ++ little 8 h.entsize))))))))

-- A section of the file: the fields of its header that are set before the layout, its name and its body.
pub record Part : Type 0 where
  pub name : Name
  pub type : ℕ
  pub flags : ℕ
  pub link : ℕ
  pub info : ℕ
  pub addralign : ℕ
  pub entsize : ℕ
  pub body : List ℕ

-- `secidx`: the indices from `i` on.
unfoldable pub indices : ℕ → List Sec → List ℕ
indices i [] = []
indices i (sec ∷ secs) = i ∷ indices (suc i) secs

abbrev pub secidx : Elf → List ℕ
secidx elf = indices 1 elf.secs

abbrev pub idx_symtab : Elf → ℕ
idx_symtab elf = length elf.secs + 1

abbrev pub idx_strtab : Elf → ℕ
idx_strtab elf = length elf.secs + 2

abbrev pub user_part : Sec → Part
user_part sec = record {
  name = sec.name;
  type = sec.type;
  flags = sec.flags;
  link = 0;
  info = 0;
  addralign = sec.addralign;
  entsize = 0;
  body = sec.bytes;
}

abbrev pub symtab_part : Elf → Part
symtab_part elf = record {
  name = text ".symtab";
  type = sht_symtab;
  flags = 0;
  link = idx_strtab elf;
  info = (write_symtab elf (secidx elf)).1;
  addralign = 8;
  entsize = entry_size;
  body = (write_symtab elf (secidx elf)).0.symtab;
}

abbrev pub strtab_part : Elf → Part
strtab_part elf = record {
  name = text ".strtab";
  type = sht_strtab;
  flags = 0;
  link = 0;
  info = 0;
  addralign = 1;
  entsize = 0;
  body = (write_symtab elf (secidx elf)).0.strtab;
}

-- The name is cut to the 63 characters that snprintf leaves.
abbrev pub rela_part : Elf → ℕ → Sec → Part
rela_part elf i sec = record {
  name = take 63 (text ".rela" ++ sec.name);
  type = sht_rela;
  flags = 0;
  link = idx_symtab elf;
  info = i;
  addralign = 8;
  entsize = disk_size;
  body = write_relas (write_symtab elf (secidx elf)).0.slot sec.relas [];
}

-- Those of the sections that have relocations; the first section has the index `i`.
unfoldable pub rela_parts : Elf → ℕ → List Sec → List Part
rela_parts elf i [] = []
rela_parts elf i (sec ∷ secs) =
    let rest = rela_parts elf (suc i) secs in
    if length sec.relas == 0 then rest else rela_part elf i sec ∷ rest

unfoldable pub named_parts : Elf → List Part
named_parts elf =
    map user_part elf.secs ++ (symtab_part elf ∷ strtab_part elf ∷ rela_parts elf 1 elf.secs)

-- `shstr` behind the names of the parts.
unfoldable pub add_names : List Part → Buf → Buf
add_names [] shstr = shstr
add_names (part ∷ parts) shstr = add_names parts (write_str part.name shstr)

unfoldable pub shstr_part : List Part → Part
shstr_part parts = record {
  name = text ".shstrtab";
  type = sht_strtab;
  flags = 0;
  link = 0;
  info = 0;
  addralign = 1;
  entsize = 0;
  body = write_str (text ".shstrtab") (add_names parts (0 ∷ []));
}

unfoldable pub all_parts : Elf → List Part
unfolding named_parts
all_parts elf = named_parts elf ++ shstr_part (named_parts elf) ∷ []

-- `sh_addralign ? sh_addralign : 1`.
abbrev pub alignment : ℕ → ℕ
alignment n = if n == 0 then 1 else n

-- `off` rounded up to the alignment of a header.
unfoldable pub align_up : ℕ → ℕ → ℕ
align_up align off = (off + alignment align - 1) % 2 ^ 64 / alignment align * alignment align

abbrev pub header_of : Part → ℕ → ℕ → Shdr
header_of part name off = record {
  name = name;
  type = part.type;
  flags = part.flags;
  addr = 0;
  offset = off;
  size = length part.body;
  link = part.link;
  info = part.info;
  addralign = part.addralign;
  entsize = part.entsize;
}

-- The headers, with the names in `shstr` and the offsets from `off` on.
unfoldable pub headers : Buf → ℕ → List Part → List Shdr
unfolding align_up
headers shstr off [] = []
headers shstr off (part ∷ parts) =
    let at = align_up part.addralign off in
    header_of part (str_offset shstr) at
    ∷ headers (write_str part.name shstr) ((at + length part.body) % 2 ^ 64) parts

-- `off` behind the last body.
unfoldable pub end_of_bodies : ℕ → List Part → ℕ
unfolding align_up
end_of_bodies off [] = off
end_of_bodies off (part ∷ parts) =
    end_of_bodies ((align_up part.addralign off + length part.body) % 2 ^ 64) parts

abbrev pub shoff_of : List Part → ℕ
shoff_of parts = (end_of_bodies ehdr_size parts + 7) % 2 ^ 64 / 8 * 8

-- The bodies at their offsets, from the file position `pos`, and zeros up to `shoff`.
unfoldable pub part_bodies : ℕ → ℕ → List Part → List Shdr → List ℕ
part_bodies shoff pos (part ∷ parts) (h ∷ hs) =
    zeros (h.offset - pos)
    ++ (part.body ++ part_bodies shoff (pos + (h.offset - pos) + length part.body) parts hs)
part_bodies shoff pos _ _ = zeros (shoff - pos)

unfoldable pub table_bytes : List Shdr → List ℕ
unfolding shdr_bytes
table_bytes [] = []
table_bytes (h ∷ hs) = shdr_bytes h ++ table_bytes hs

abbrev pub rel_ehdr : Elf → List Part → Ehdr
rel_ehdr elf parts = record {
  type = et_rel;
  machine = elf.machine;
  entry = 0;
  phoff = 0;
  shoff = shoff_of parts;
  phentsize = 0;
  phnum = 0;
  shentsize = shdr_size;
  shnum = length parts + 1;
  shstrndx = length parts;
}

-- The file of the parts; the header with the index 0 is zero.
unfoldable pub write_parts : Elf → List Part → List ℕ
unfolding headers part_bodies table_bytes end_of_bodies
write_parts elf parts =
    let hs = headers (0 ∷ []) ehdr_size parts in
    ehdr_bytes (rel_ehdr elf parts)
    ++ (part_bodies (shoff_of parts) ehdr_size parts hs ++ (zeros shdr_size ++ table_bytes hs))

unfoldable pub write_rel : Elf → List ℕ
unfolding write_parts all_parts
write_rel elf = write_parts elf (all_parts elf)

-- Elf_WriteFile.
unfoldable pub write_file : Elf → List ℕ
unfolding write_rel write_exec
write_file elf = if elf.type == 2 then write_exec elf else write_rel elf
