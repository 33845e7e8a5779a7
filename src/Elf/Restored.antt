-- ===== src/Elf/Restored.antt =====
-- The sections of a relocatable object, behind its file and the reader.
use mathlib.Core.Path.{subst}
use mathlib.Core.Option.{some-injective}
use ivan_cc.Prelude.{
  ℕ, zero, suc, ◌+◌, ◌-◌, ◌^◌, ◌<◌, Bool, true, false, ◌==◌, List, [], ◌∷◌, ◌++◌, ◌≡◌, refl, sym,
  ap, ◌∙◌, some, none, get_elem?, map, length, append_assoc, append-nil, arith, ok, if◌then◌else◌,
}
use ivan_cc.Elf.Object.{Elf, Sec, sht_progbits}
use ivan_cc.Elf.Exec.{ehdr_size}
use ivan_cc.Elf.Relocatable.{
  Part, Shdr, header_of, alignment, add_names, shoff_of, all_parts, named_parts, user_part,
  symtab_part, strtab_part, rela_parts, rela_part, shstr_part, write_rel, write_parts,
}
use ivan_cc.Elf.Reader.{
  Sections, keep_header, skip_header, read_section, read_sections, read_own_sections, shdr_at,
  field, from_little,
}
use ivan_cc.Elf.Fields.{from_little-little8, shdr_at-LiesAt, HasNoNul}
use ivan_cc.Elf.Laid.{room}
use ivan_cc.Elf.Placed.{Placed, write_rel-AllPlaced}
use ivan_cc.Elf.Reread.{step, steps, IsReadable, read_sections-steps}

-- A section as the reader makes it: the relocations are in a section of their own, and the file has no address.
abbrev pub as_read : Sec → Sec
as_read sec = record sec { addr = 0; addralign = alignment sec.addralign; relas = [] }

-- The sections that the reader takes up, those with PROGBITS.
unfoldable pub progbits : List Sec → List Sec
progbits [] = []
progbits (sec ∷ secs) =
    let rest = progbits secs in if sec.type == sht_progbits then as_read sec ∷ rest else rest

-- The sections have names and fields that fit the file.
unfoldable pub FitsSecs : List Sec → Type 0
FitsSecs [] = Unit
FitsSecs (sec ∷ secs) =
    (HasNoNul sec.name × (sec.type < 2 ^ 32) × (sec.flags < 2 ^ 64) × (sec.addralign < 2 ^ 64))
    × FitsSecs secs

-- An object whose file is not too large for the fields of the headers.
pub record IsWritable (elf : Elf) : Type 0 where
  pub secs : FitsSecs elf.secs
  pub few : length (all_parts elf) + 1 < 2 ^ 16
  pub names : length (add_names (all_parts elf) (0 ∷ [])) < 2 ^ 32
  pub roomy : ehdr_size + room (all_parts elf) + 7 < 2 ^ 64

-- The sections that the writer adds, which have a type from 2 to 4.
unfoldable AreAdded : List Part → Type 0
AreAdded [] = Unit
AreAdded (part ∷ parts) = ((1 < part.type) × (part.type < 5)) × AreAdded parts

AreAdded-if :
    (b : Bool) (ps qs rest : List Part)
    → AreAdded (ps ++ rest)
    → AreAdded (qs ++ rest)
    → AreAdded ((if b then ps else qs) ++ rest)
AreAdded-if true ps qs rest x y = x
AreAdded-if false ps qs rest x y = y

rela_parts-AreAdded :
    (elf : Elf) (i : ℕ) (secs : List Sec) (rest : List Part)
    → AreAdded rest
    → AreAdded (rela_parts elf i secs ++ rest)
unfolding rela_parts AreAdded
rela_parts-AreAdded elf i [] rest r = r
rela_parts-AreAdded elf i (sec ∷ secs) rest r =
    AreAdded-if (length sec.relas == 0) (rela_parts elf (suc i) secs)
      (rela_part elf i sec ∷ rela_parts elf (suc i) secs) rest
      (rela_parts-AreAdded elf (suc i) secs rest r)
      ((omega arith, omega arith), rela_parts-AreAdded elf (suc i) secs rest r)

steps-append : (ps qs : List Part) (s : Sections) → steps (ps ++ qs) s ≡ steps qs (steps ps s)
unfolding steps
steps-append [] qs s = refl
steps-append (p ∷ ps) qs s = steps-append ps qs (step p s)

steps-AreAdded : (ps : List Part) (s : Sections) → AreAdded ps → (steps ps s).secs ≡ s.secs
unfolding steps AreAdded
steps-AreAdded [] s a = refl
steps-AreAdded (p ∷ ps) s ((l, m), a) = steps-AreAdded ps (step p s) a ∙ ground arith

secs-if :
    (b : Bool) (part : Part) (s : Sections) (rest : List Sec)
    → (if b
          then keep_header (read_section (header_of part 0 0) part.name part.body) s
          else skip_header s).secs
        ++ rest
      ≡ s.secs ++ (if b then read_section (header_of part 0 0) part.name part.body ∷ rest else rest)
secs-if true part s rest =
    append_assoc s.secs (read_section (header_of part 0 0) part.name part.body ∷ []) rest
secs-if false part s rest = refl

steps-map :
    (secs : List Sec) (s : Sections) → (steps (map user_part secs) s).secs ≡ s.secs ++ progbits secs
unfolding steps progbits
steps-map [] s = sym (append-nil s.secs)
steps-map (sec ∷ secs) s =
    steps-map secs (step (user_part sec) s)
    ∙ secs-if (sec.type == sht_progbits) (user_part sec) s (progbits secs)

FitsSecs-IsReadable :
    (secs : List Sec)
    → FitsSecs secs
    → (rest : List Part) → AreAdded rest
    → (i : ℕ) (part : Part) → get_elem? (map user_part secs ++ rest) i ≡ some part
    → IsReadable part
unfolding FitsSecs AreAdded
FitsSecs-IsReadable [] f [] a i part e = cc
FitsSecs-IsReadable [] f (p ∷ ps) ((l, m), a) zero part e =
    subst IsReadable (some-injective _ _ e)
      (record { type = omega arith; whole = λ w. absurd (omega (arith, w)) })
FitsSecs-IsReadable [] f (p ∷ ps) (_, a) (suc i) part e = FitsSecs-IsReadable [] f ps a i part e
FitsSecs-IsReadable (sec ∷ secs) ((n, t, g, d), f) rest a zero part e =
    subst IsReadable (some-injective _ _ e) (record {
      type = t;
      whole = λ _. record {
        name = n;
        flags = g;
        link = omega arith;
        info = omega arith;
        addralign = d;
        entsize = omega arith;
      };
    })
FitsSecs-IsReadable (sec ∷ secs) (_, f) rest a (suc i) part e =
    FitsSecs-IsReadable secs f rest a i part e

-- The sections behind those of the object.
abbrev added_parts : Elf → List Part
added_parts elf =
    symtab_part elf
    ∷ strtab_part elf
    ∷ (rela_parts elf 1 elf.secs ++ shstr_part (named_parts elf) ∷ [])

all_parts-added_parts : (elf : Elf) → all_parts elf ≡ map user_part elf.secs ++ added_parts elf
unfolding all_parts named_parts
all_parts-added_parts elf =
    append_assoc (map user_part elf.secs)
      (symtab_part elf ∷ strtab_part elf ∷ rela_parts elf 1 elf.secs)
      (shstr_part (named_parts elf) ∷ [])

added_parts-AreAdded : (elf : Elf) → AreAdded (added_parts elf)
unfolding AreAdded shstr_part
added_parts-AreAdded elf = (
  (omega arith, omega arith),
  (
    (omega arith, omega arith),
    rela_parts-AreAdded elf 1 elf.secs (shstr_part (named_parts elf) ∷ [])
        ((omega arith, omega arith), tt),
  ),
)

steps-all_parts :
    (elf : Elf) (s : Sections) → (steps (all_parts elf) s).secs ≡ s.secs ++ progbits elf.secs
steps-all_parts elf s =
    ap (λ ps. (steps ps s).secs) (all_parts-added_parts elf)
    ∙ (ap (λ t. t.secs) (steps-append (map user_part elf.secs) (added_parts elf) s)
        ∙ (steps-AreAdded (added_parts elf) (steps (map user_part elf.secs) s)
              (added_parts-AreAdded elf)
            ∙ steps-map elf.secs s))

-- The fields of the header of the file that the reader uses.
pub shoff-write_rel : (elf : Elf) → field (write_rel elf) 40 8 ≡ shoff_of (all_parts elf)
unfolding field write_rel write_parts
shoff-write_rel elf = from_little-little8 (shoff_of (all_parts elf)) (omega arith)

pub shnum-write_rel :
    (elf : Elf)
    → length (all_parts elf) + 1 < 2 ^ 16
    → field (write_rel elf) 60 2 ≡ length (all_parts elf) + 1
unfolding field write_rel write_parts from_little
shnum-write_rel elf l = omega (arith, l)

pub shstrndx-write_rel :
    (elf : Elf)
    → length (all_parts elf) + 1 < 2 ^ 16
    → field (write_rel elf) 62 2 ≡ length (all_parts elf)
unfolding field write_rel write_parts from_little
shstrndx-write_rel elf l = omega (arith, l)

all_parts-IsReadable :
    (elf : Elf)
    → FitsSecs elf.secs
    → (i : ℕ) (part : Part) → get_elem? (all_parts elf) i ≡ some part
    → IsReadable part
all_parts-IsReadable elf f i part e =
    FitsSecs-IsReadable elf.secs f (added_parts elf) (added_parts-AreAdded elf) i part
      (ap (λ ps. get_elem? ps i) (sym (all_parts-added_parts elf)) ∙ e)

read_own_sections-fields :
    (file : List ℕ) (shoff n : ℕ) (names : Shdr) (s : Sections)
    → field file 40 8 ≡ shoff
    → field file 62 2 ≡ n
    → field file 60 2 ≡ n + 1
    → shdr_at file shoff n ≡ ok names
    → read_sections file shoff names.offset 1 n (record { secs = []; secmap = none ∷ [] }) ≡ ok s
    → read_own_sections file ≡ ok s
unfolding read_own_sections
read_own_sections-fields file shoff n names s a b c d e =
    let count : field file 60 2 - 1 ≡ n = omega (arith, c) in rw (a, b, count, d) e

-- The first loop of Elf_ReadMem, over the file that Elf_WriteRel writes for a writable object, takes up the sections of
-- the object with PROGBITS and no other, in order, each with its name, type, flags, alignment and bytes.
pub read_own_sections-write_rel :
    (elf : Elf)
    → IsWritable elf
    → (s : Sections) × (read_own_sections (write_rel elf) ≡ ok s) × (s.secs ≡ progbits elf.secs)
unfolding read_own_sections shstr_part
read_own_sections-write_rel elf w =
    let file = write_rel elf in
    let parts = all_parts elf in
    let start : Sections = record { secs = []; secmap = none ∷ [] } in
    let all = write_rel-AllPlaced elf w.roomy w.names in
    let names = header_of (shstr_part (named_parts elf)) all.name all.strings in
    let strings : shdr_at file (shoff_of parts) (length parts) ≡ ok names =
      shdr_at-LiesAt file (shoff_of parts) (length parts) names
        (record {
          name = all.short;
          type = omega arith;
          flags = omega arith;
          addr = omega arith;
          offset = omega (arith, all.fits, w.roomy);
          size = omega (arith, all.fits, w.roomy);
          link = omega arith;
          info = omega arith;
          addralign = omega arith;
          entsize = omega arith;
        })
        all.header in
    let rest =
      read_sections-steps elf file all.strings 0 parts start (omega (arith, w.roomy)) (λ j part e. (
        all_parts-IsReadable elf w.secs j part e,
        subst (λ n. Placed elf file all.strings n part) (omega arith) (all.placed j part e),
      )) in
    let read =
      read_own_sections-fields file (shoff_of parts) (length parts) names (steps parts start)
        (shoff-write_rel elf) (shstrndx-write_rel elf w.few) (shnum-write_rel elf w.few) strings
        rest in
    (steps parts start, read, steps-all_parts elf start)
