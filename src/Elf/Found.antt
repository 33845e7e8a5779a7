-- ===== src/Elf/Found.antt =====
-- What a reader of a relocatable object finds, field by field.
use mathlib.Core.Path.{subst}
use ivan_cc.Prelude.{
  ℕ, suc, ◌+◌, ◌*◌, ◌%◌, ◌^◌, ◌<◌, some, List, [], ◌∷◌, ◌++◌, ◌≡◌, refl, sym, ◌∙◌, ap, length,
  get_elem?, arith,
}
use ivan_cc.Elf.Object.{Elf}
use ivan_cc.Elf.Exec.{ehdr_size}
use ivan_cc.Elf.Loads.{LiesAt}
use ivan_cc.Elf.Loaded.{get_elem?-below}
use ivan_cc.Elf.Relocatable.{
  Part, alignment, header_of, shdr_bytes, shdr_size, add_names, all_parts, named_parts, shstr_part,
  write_rel, shoff_of, write_parts,
}
use ivan_cc.Elf.Laid.{room}
use ivan_cc.Elf.Placed.{write_rel-AllPlaced}
use ivan_cc.Elf.Reader.{field, from_little}
use ivan_cc.Elf.Restored.{shoff-write_rel, shnum-write_rel, shstrndx-write_rel}
use ivan_cc.Elf.Words.{from_little8, from_little4, field-within}

-- The section header number `i`: e_shoff, and e_shentsize for each one before.
abbrev pub shdr_place : List ℕ → ℕ → ℕ
shdr_place file i = field file 40 8 + i * field file 58 2

-- The offset of the section with the names, in the header that e_shstrndx numbers.
abbrev pub names_place : List ℕ → ℕ
names_place file = field file (shdr_place file (field file 62 2) + 24) 8

-- The section number `i` of the file, from 1 on, is `part`.
pub record Found (file : List ℕ) (i : ℕ) (part : Part) : Type 0 where
  pub listed : i < field file 60 2
  pub type : field file (shdr_place file i + 4) 4 ≡ part.type % 2 ^ 32
  pub size : field file (shdr_place file i + 32) 8 ≡ length part.body
  pub link : field file (shdr_place file i + 40) 4 ≡ part.link % 2 ^ 32
  pub info : field file (shdr_place file i + 44) 4 ≡ part.info % 2 ^ 32
  pub multiple : (k : ℕ) × (field file (shdr_place file i + 24) 8 ≡ k * alignment part.addralign)
  pub body : LiesAt file (field file (shdr_place file i + 24) 8) part.body
  pub named :
      LiesAt file (names_place file + field file (shdr_place file i + 0) 4) (part.name ++ 0 ∷ [])

shentsize : (elf : Elf) → field (write_rel elf) 58 2 ≡ shdr_size
unfolding field from_little write_rel write_parts
shentsize elf = refl

shdr_place-write_rel :
    (elf : Elf) (i : ℕ) → shdr_place (write_rel elf) i ≡ shoff_of (all_parts elf) + i * shdr_size
shdr_place-write_rel elf i =
    ap (λ n. n + i * field (write_rel elf) 58 2) (shoff-write_rel elf)
    ∙ ap (λ n. shoff_of (all_parts elf) + i * n) (shentsize elf)

-- Elf_WriteRel, on an object of fewer than 2 ^ 16 sections with the added ones, whose file stays below 2 ^ 64 bytes and
-- the names of its sections below 2 ^ 32: read field by field, from e_shoff on, every section has its header, within
-- e_shnum, with its type, size, link and info, an offset that is a multiple of its alignment and at which its bytes lie,
-- and an offset of its name, at which the name lies, with its NUL, in the section that e_shstrndx numbers.
pub write_rel-Found :
    (elf : Elf) (i : ℕ) (part : Part)
    → ehdr_size + room (all_parts elf) + 7 < 2 ^ 64
    → length (add_names (all_parts elf) (0 ∷ [])) < 2 ^ 32
    → length (all_parts elf) + 1 < 2 ^ 16
    → get_elem? (all_parts elf) i ≡ some part
    → Found (write_rel elf) (suc i) part
unfolding field shdr_bytes
write_rel-Found elf i part l m n e =
    let file = write_rel elf in
    let all = write_rel-AllPlaced elf l m in
    let p = all.placed i part e in
    let bytes = shdr_bytes (header_of part p.name p.off) in
    let at = shoff_of (all_parts elf) + suc i * shdr_size in
    let strings = shoff_of (all_parts elf) + length (all_parts elf) * shdr_size in
    let here = shdr_place-write_rel elf (suc i) in
    let read = λ (k w : ℕ). ap (λ a. field file (a + k) w) here in
    let offset : field file (shdr_place file (suc i) + 24) 8 ≡ p.off =
      read 24 8
      ∙ (field-within file at bytes 24 8 p.header refl refl refl
          ∙ (from_little8 p.off ∙ omega (arith, p.fits, l))) in
    let name : field file (shdr_place file (suc i) + 0) 4 ≡ p.name =
      read 0 4
      ∙ (field-within file at bytes 0 4 p.header refl refl refl
          ∙ (from_little4 p.name ∙ omega (arith, p.short))) in
    let names_at : shdr_place file (field file 62 2) ≡ strings =
      ap (shdr_place file) (shstrndx-write_rel elf n)
      ∙ shdr_place-write_rel elf (length (all_parts elf)) in
    let names : names_place file ≡ all.strings =
      ap (λ a. field file (a + 24) 8) names_at
      ∙ (field-within file strings
            (shdr_bytes (header_of (shstr_part (named_parts elf)) all.name all.strings)) 24 8
            all.header refl refl refl
          ∙ (from_little8 all.strings ∙ omega (arith, all.fits, l))) in
    record {
      listed = omega (arith, shnum-write_rel elf n, get_elem?-below (all_parts elf) i part e);
      type =
          read 4 4
          ∙ (field-within file at bytes 4 4 p.header refl refl refl ∙ from_little4 part.type);
      size =
          read 32 8
          ∙ (field-within file at bytes 32 8 p.header refl refl refl
              ∙ (from_little8 (length part.body) ∙ omega (arith, p.fits, l)));
      link =
          read 40 4
          ∙ (field-within file at bytes 40 4 p.header refl refl refl ∙ from_little4 part.link);
      info =
          read 44 4
          ∙ (field-within file at bytes 44 4 p.header refl refl refl ∙ from_little4 part.info);
      multiple = (p.multiple.0, offset ∙ p.multiple.1);
      body = subst (λ o. LiesAt file o part.body) (sym offset) p.body;
      named =
          subst
            (λ o.
              LiesAt file (o + field file (shdr_place file (suc i) + 0) 4) (part.name ++ 0 ∷ []))
            (sym names)
            (subst (λ o. LiesAt file (all.strings + o) (part.name ++ 0 ∷ [])) (sym name) p.named);
    }
