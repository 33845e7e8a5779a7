-- ===== src/Elf/Exec.antt =====
-- The file of an executable: Elf_WriteExec of src/util/elf.c, as the bytes that it writes. The file headers are written
-- from memory, on a machine whose words are little-endian.
use ivan_cc.Prelude.{
  ℕ, ◌+◌, ◌-◌, ◌*◌, ◌%◌, ◌^◌, Bool, ◌&&◌, List, [], ◌∷◌, ◌++◌, length, ltb, if◌then◌else◌, bit_and,
}
use ivan_cc.Elf.Object.{Elf, Sec, little, shf_alloc}
use ivan_cc.Elf.Buffer.{page, zeros, place_offset}

-- ELF_CLASS64, ELF_DATA2LSB, ELF_VERSION, ELF_PT_LOAD, and ELF_PF_R with ELF_PF_X.
abbrev elf_class64 : ℕ
elf_class64 = 2

abbrev elf_data2lsb : ℕ
elf_data2lsb = 1

abbrev elf_version : ℕ
elf_version = 1

abbrev elf_pt_load : ℕ
elf_pt_load = 1

abbrev elf_pf_rx : ℕ
elf_pf_rx = 5

abbrev elf_et_exec : ℕ
elf_et_exec = 2

-- `Elf64_Ehdr` behind `e_ident`, with the fields that are not 0 in one of the writers.
pub record Ehdr : Type 0 where
  pub type : ℕ
  pub machine : ℕ
  pub entry : ℕ
  pub phoff : ℕ
  pub shoff : ℕ
  pub phentsize : ℕ
  pub phnum : ℕ
  pub shentsize : ℕ
  pub shnum : ℕ
  pub shstrndx : ℕ

-- sizeof(Elf64_Ehdr) and sizeof(Elf64_Phdr).
abbrev pub ehdr_size : ℕ
ehdr_size = 64

abbrev pub phdr_size : ℕ
phdr_size = 56

abbrev pub ident : List ℕ
ident = 0x7f ∷ 69 ∷ 76 ∷ 70 ∷ elf_class64 ∷ elf_data2lsb ∷ elf_version ∷ zeros 9

abbrev pub ehdr_bytes : Ehdr → List ℕ
ehdr_bytes h =
    ident
    ++ little 2 h.type
    ++ little 2 h.machine
    ++ little 4 elf_version
    ++ little 8 h.entry
    ++ little 8 h.phoff
    ++ little 8 h.shoff
    ++ little 4 0
    ++ little 2 ehdr_size
    ++ little 2 h.phentsize
    ++ little 2 h.phnum
    ++ little 2 h.shentsize
    ++ little 2 h.shnum
    ++ little 2 h.shstrndx

-- `Elf64_Phdr`.
pub record Phdr : Type 0 where
  pub type : ℕ
  pub flags : ℕ
  pub offset : ℕ
  pub vaddr : ℕ
  pub paddr : ℕ
  pub filesz : ℕ
  pub memsz : ℕ
  pub align : ℕ

abbrev pub phdr_bytes : Phdr → List ℕ
phdr_bytes h =
    little 4 h.type
    ++ little 4 h.flags
    ++ little 8 h.offset
    ++ little 8 h.vaddr
    ++ little 8 h.paddr
    ++ little 8 h.filesz
    ++ little 8 h.memsz
    ++ little 8 h.align

abbrev pub is_loadable : Sec → Bool
is_loadable sec = ltb 0 (bit_and sec.flags shf_alloc) && ltb 0 (length sec.bytes)

-- `segs`.
unfoldable pub segments : List Sec → List Sec
segments [] = []
segments (sec ∷ secs) = let rest = segments secs in if is_loadable sec then sec ∷ rest else rest

-- `offs`, from the file position `at`.
unfoldable pub offsets : ℕ → List Sec → List ℕ
offsets at [] = []
offsets at (seg ∷ segs) =
    let off = place_offset at seg.addr in off ∷ offsets ((off + length seg.bytes) % 2 ^ 64) segs

abbrev pub exec_ehdr : Elf → ℕ → Ehdr
exec_ehdr elf nseg = record {
  type = elf_et_exec;
  machine = elf.machine;
  entry = elf.entry;
  phoff = ehdr_size;
  shoff = 0;
  phentsize = phdr_size;
  phnum = nseg;
  shentsize = 0;
  shnum = 0;
  shstrndx = 0;
}

abbrev pub segment_phdr : Sec → ℕ → Phdr
segment_phdr seg off = record {
  type = elf_pt_load;
  flags = elf_pf_rx;
  offset = off;
  vaddr = seg.addr;
  paddr = seg.addr;
  filesz = length seg.bytes;
  memsz = length seg.bytes;
  align = page;
}

unfoldable pub write_phdrs : List Sec → List ℕ → List ℕ
write_phdrs (seg ∷ segs) (off ∷ offs) = phdr_bytes (segment_phdr seg off) ++ write_phdrs segs offs
write_phdrs _ _ = []

-- The last loop, from the file position `at`: zeros up to the offset, then the bytes.
unfoldable pub write_bodies : ℕ → List Sec → List ℕ → List ℕ
write_bodies at (seg ∷ segs) (off ∷ offs) =
    zeros (off - at) ++ (seg.bytes ++ write_bodies (at + (off - at) + length seg.bytes) segs offs)
write_bodies at _ _ = []

abbrev pub headers_size : List Sec → ℕ
headers_size segs = ehdr_size + length segs * phdr_size

unfoldable pub write_exec : Elf → List ℕ
write_exec elf =
    let segs = segments elf.secs in
    let offs = offsets (headers_size segs) segs in
    ehdr_bytes (exec_ehdr elf (length segs))
    ++ (write_phdrs segs offs ++ write_bodies (headers_size segs) segs offs)
