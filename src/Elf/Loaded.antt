-- ===== src/Elf/Loaded.antt =====
-- What a loader reads in the file of an executable, field by field.
use ivan_cc.Prelude.{
  ℕ, zero, suc, ◌+◌, ◌*◌, ◌%◌, ◌^◌, ◌<◌, some, List, [], ◌∷◌, ◌≡◌, refl, ◌∙◌, ap, length, get_elem?,
  arith,
}
use ivan_cc.Elf.Object.{Elf, Sec}
use ivan_cc.Elf.Buffer.{page}
use ivan_cc.Elf.Exec.{
  segments, write_exec, headers_size, phdr_bytes, segment_phdr, ehdr_size, phdr_size,
}
use ivan_cc.Elf.Loads.{LiesAt, room, write_exec-Loads}
use ivan_cc.Elf.Reader.{field, from_little}
use ivan_cc.Elf.Words.{from_little8, from_little4, from_little2, field-within}

-- The program header number `i`: e_phoff, and e_phentsize for each one before.
abbrev pub phdr_at : List ℕ → ℕ → ℕ
phdr_at file i = field file 32 8 + i * field file 54 2

-- The program header of a section is a PT_LOAD one with the section's address and size and with the offset `off`, at
-- which its bytes lie.
pub record Loaded (elf : Elf) (i : ℕ) (seg : Sec) (file : List ℕ) : Type 0 where
  pub off : ℕ
  pub entry : field file 24 8 ≡ elf.entry % 2 ^ 64
  pub listed : i < field file 56 2
  pub type : field file (phdr_at file i + 0) 4 ≡ 1
  pub offset : field file (phdr_at file i + 8) 8 ≡ off
  pub vaddr : field file (phdr_at file i + 16) 8 ≡ seg.addr % 2 ^ 64
  pub filesz : field file (phdr_at file i + 32) 8 ≡ length seg.bytes
  pub memsz : field file (phdr_at file i + 40) 8 ≡ length seg.bytes
  pub congruent : off % page ≡ seg.addr % page
  pub body : LiesAt file off seg.bytes

phdr_at-write_exec : (elf : Elf) (i : ℕ) → phdr_at (write_exec elf) i ≡ ehdr_size + i * phdr_size
unfolding field from_little write_exec
phdr_at-write_exec elf i = omega arith

entry-write_exec : (elf : Elf) → field (write_exec elf) 24 8 ≡ elf.entry % 2 ^ 64
unfolding field write_exec
entry-write_exec elf = from_little8 elf.entry

phnum-write_exec : (elf : Elf) → field (write_exec elf) 56 2 ≡ length (segments elf.secs) % 2 ^ 16
unfolding field write_exec
phnum-write_exec elf = from_little2 (length (segments elf.secs))

pub get_elem?-below :
    {A : Type 0} → (xs : List A) (i : ℕ) (x : A) → get_elem? xs i ≡ some x → i < length xs
get_elem?-below [] i x e = cc
get_elem?-below (y ∷ xs) zero x e = omega arith
get_elem?-below (y ∷ xs) (suc i) x e = omega (arith, get_elem?-below xs i x e)

-- Elf_WriteExec, on an object with fewer than 2 ^ 16 loadable sections that, each with a page to spare, fit with the
-- headers below 2 ^ 64: read field by field, the file has the entry of the object, and for each loadable section a
-- program header, within their number, of the type PT_LOAD, with the address and the size of the section and an offset
-- that is congruent to the address modulo the page; and the section's bytes lie in the file at that offset.
pub write_exec-Loaded :
    (elf : Elf) (i : ℕ) (seg : Sec)
    → headers_size (segments elf.secs) + room (segments elf.secs) < 2 ^ 64
    → length (segments elf.secs) < 2 ^ 16
    → get_elem? (segments elf.secs) i ≡ some seg
    → Loaded elf i seg (write_exec elf)
unfolding field
write_exec-Loaded elf i seg l m e =
    let file = write_exec elf in
    let w = write_exec-Loads elf i seg l e in
    let bytes = phdr_bytes (segment_phdr seg w.off) in
    let at = ehdr_size + i * phdr_size in
    let here = phdr_at-write_exec elf i in
    let read = λ (k n : ℕ). ap (λ a. field file (a + k) n) here in
    record {
      off = w.off;
      entry = entry-write_exec elf;
      listed = omega (arith, phnum-write_exec elf, get_elem?-below (segments elf.secs) i seg e, m);
      type = read 0 4 ∙ (field-within file at bytes 0 4 w.header refl refl refl ∙ from_little4 1);
      offset =
          read 8 8
          ∙ (field-within file at bytes 8 8 w.header refl refl refl
              ∙ (from_little8 w.off ∙ omega (arith, w.fits)));
      vaddr =
          read 16 8
          ∙ (field-within file at bytes 16 8 w.header refl refl refl ∙ from_little8 seg.addr);
      filesz =
          read 32 8
          ∙ (field-within file at bytes 32 8 w.header refl refl refl
              ∙ (from_little8 (length seg.bytes) ∙ omega (arith, w.fits)));
      memsz =
          read 40 8
          ∙ (field-within file at bytes 40 8 w.header refl refl refl
              ∙ (from_little8 (length seg.bytes) ∙ omega (arith, w.fits)));
      congruent = w.congruent;
      body = w.body;
    }
