-- ===== src/Elf/Reread.antt =====
-- Reading the sections of a relocatable object back from its file.
use mathlib.Core.Path.{subst}
use ivan_cc.Prelude.{
  ℕ, suc, ◌+◌, ◌^◌, ◌<◌, ◌==◌, List, [], ◌∷◌, ◌≡◌, refl, ap, ◌∙◌, some, get_elem?, length, arith,
  Outcome, ok, if◌then◌else◌, ◌>>=◌,
}
use ivan_cc.Elf.Object.{Elf, sht_progbits}
use ivan_cc.Elf.Exec.{ehdr_size}
use ivan_cc.Elf.Relocatable.{Part, shdr_bytes, header_of, shoff_of, all_parts}
use ivan_cc.Elf.Reader.{
  Sections, read_section, keep_header, skip_header, add_section, add_header, read_sections, shdr_of,
  slice,
}
use ivan_cc.Elf.Fields.{
  slice-LiesAt, c_string-LiesAt, shdr_of-shdr_bytes, shdr_at-raw, type-shdr_of, FitsShdr, HasNoNul,
}
use ivan_cc.Elf.Laid.{room}
use ivan_cc.Elf.Placed.{Placed}

-- What the reader does with a section of the file.
abbrev pub step : Part → Sections → Sections
step part s =
    if part.type == sht_progbits
    then keep_header (read_section (header_of part 0 0) part.name part.body) s
    else skip_header s

unfoldable pub steps : List Part → Sections → Sections
steps [] s = s
steps (part ∷ parts) s = steps parts (step part s)

-- A section whose name and header can be written as they are.
pub record IsWhole (part : Part) : Type 0 where
  pub name : HasNoNul part.name
  pub flags : part.flags < 2 ^ 64
  pub link : part.link < 2 ^ 32
  pub info : part.info < 2 ^ 32
  pub addralign : part.addralign < 2 ^ 64
  pub entsize : part.entsize < 2 ^ 64

pub record IsReadable (part : Part) : Type 0 where
  pub type : part.type < 2 ^ 32
  pub whole : part.type ≡ sht_progbits → IsWhole part

add_section-step :
    (elf : Elf) (file : List ℕ) (strings i : ℕ) (part : Part) (s : Sections)
    → ehdr_size + room (all_parts elf) < 2 ^ 64
    → IsReadable part
    → part.type ≡ sht_progbits
    → (p : Placed elf file strings i part)
    → add_section file strings (shdr_of (shdr_bytes (header_of part p.name p.off))) s
      ≡ ok (keep_header (read_section (header_of part 0 0) part.name part.body) s)
unfolding add_section
add_section-step elf file strings i part s l r e p =
    let w = r.whole e in
    let fits : FitsShdr (header_of part p.name p.off) = record {
      name = p.short;
      type = r.type;
      flags = w.flags;
      addr = omega arith;
      offset = omega (arith, l, p.fits);
      size = omega (arith, l, p.fits);
      link = w.link;
      info = w.info;
      addralign = w.addralign;
      entsize = w.entsize;
    } in
    ap (λ sh. add_section file strings sh s) (shdr_of-shdr_bytes (header_of part p.name p.off) fits)
    ∙ (ap
          (λ r. r >>= λ name. slice file p.off (length part.body) >>= λ bytes.
            ok (keep_header (read_section (header_of part 0 0) name bytes) s))
          (c_string-LiesAt file (strings + p.name) part.name w.name p.named)
        ∙ ap
            (λ r.
              r >>= λ bytes. ok (keep_header (read_section (header_of part 0 0) part.name bytes) s))
            (slice-LiesAt file p.off part.body p.body))

ok-if :
    (n m : ℕ) (x : Outcome Sections) (y z : Sections)
    → n ≡ m
    → (m ≡ sht_progbits → x ≡ ok y)
    → (if n == sht_progbits then x else ok z) ≡ ok (if m == sht_progbits then y else z)
ok-if n m x y z e h = grind (arith, e, h)

add_header-step :
    (elf : Elf) (file : List ℕ) (strings i : ℕ) (part : Part) (s : Sections)
    → ehdr_size + room (all_parts elf) < 2 ^ 64
    → IsReadable part
    → (p : Placed elf file strings i part)
    → add_header file strings (shdr_of (shdr_bytes (header_of part p.name p.off))) s
      ≡ ok (step part s)
unfolding add_header
add_header-step elf file strings i part s l r p =
    ok-if (shdr_of (shdr_bytes (header_of part p.name p.off))).type part.type _ _ _
      (type-shdr_of (header_of part p.name p.off) r.type)
      (λ e. add_section-step elf file strings i part s l r e p)

-- The parts from `parts` on, which have the places from `i` on.
pub read_sections-steps :
    (elf : Elf) (file : List ℕ) (strings i : ℕ) (parts : List Part) (s : Sections)
    → ehdr_size + room (all_parts elf) < 2 ^ 64
    → ((j : ℕ) (part : Part)
        → get_elem? parts j ≡ some part
        → IsReadable part × Placed elf file strings (i + j) part)
    → read_sections file (shoff_of (all_parts elf)) strings (suc i) (length parts) s
      ≡ ok (steps parts s)
unfolding read_sections steps
read_sections-steps elf file strings i [] s l h = refl
read_sections-steps elf file strings i (part ∷ parts) s l h =
    let (r, placed) = h 0 part refl in
    let p : Placed elf file strings i part =
      subst (λ n. Placed elf file strings n part) (omega arith) placed in
    let shoff = shoff_of (all_parts elf) in
    ap
      (λ r. r >>= λ sh. add_header file strings sh s >>= λ s'.
        read_sections file shoff strings (suc (suc i)) (length parts) s')
      (shdr_at-raw file shoff (suc i) (header_of part p.name p.off) p.header)
    ∙ (ap (λ r. r >>= λ s'. read_sections file shoff strings (suc (suc i)) (length parts) s')
          (add_header-step elf file strings i part s l r p)
        ∙ read_sections-steps elf file strings (suc i) parts (step part s) l (λ j q e.
          let (r', placed') = h (suc j) q e in
          (r', subst (λ n. Placed elf file strings n q) (omega arith) placed')))
