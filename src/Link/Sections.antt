-- ===== src/Link/Sections.antt =====
-- What the first phase of Link_Merge ensures.
use mathlib.Core.Path.{subst}
use ivan_cc.Prelude.{
  ℕ, ◌+◌, ◌≤◌, some, List, [], ◌∷◌, ◌≡◌, refl, sym, ◌∙◌, ◌⊎◌, inl, inr, All, All-map, All-set,
  All-append, All-get_elem?, length, length-append, get_elem?, get_elem?-set_self, lt_of_get_elem?,
  set, ok, arith,
}
use ivan_cc.Prelude.Name.{Name}
use ivan_cc.Elf.Object.{Elf, Sec, section_get, section_add, empty_section}
use ivan_cc.Elf.Lookup.{section_at-ok, section_get-In}
use ivan_cc.Elf.Buffer.{buf_align, buf_align_le}
use ivan_cc.Link.Whole.{
  Sound, SecSound, Grown, Grown-refl, Grown-trans, Grown-append, Grown-set, Sound-weaken,
}
use ivan_cc.Link.Merge.{Base, with_section, merge_section, merge_sections}

-- The bytes of an input section lie in the output section.
abbrev pub Lies : List Sec → Base → ℕ → Type 0
Lies secs b size =
    (dst : Sec) × (get_elem? secs b.sec ≡ some dst) × (b.at + size ≤ length dst.bytes)

pub Lies-Grown :
    (xs ys : List Sec) (b : Base) (size : ℕ) → Grown xs ys → Lies xs b size → Lies ys b size
Lies-Grown xs ys b size g (dst, e, l) =
    let (dst', e', l') = g.wider b.sec dst e in (dst', e', omega arith)

abbrev pub AllLie : List Sec → List Base → List Sec → Type 0
AllLie out [] [] = Unit
AllLie out (b ∷ bases) (sec ∷ secs) = Lies out b (length sec.bytes) × AllLie out bases secs
AllLie out _ _ = ⊥

pub AllLie-Grown :
    (xs ys : List Sec) (bases : List Base) (secs : List Sec)
    → Grown xs ys
    → AllLie xs bases secs
    → AllLie ys bases secs
AllLie-Grown xs ys [] [] g h = tt
AllLie-Grown xs ys [] (sec ∷ secs) g h = elim h [ ]
AllLie-Grown xs ys (b ∷ bases) [] g h = elim h [ ]
AllLie-Grown xs ys (b ∷ bases) (sec ∷ secs) g h =
    (Lies-Grown xs ys b (length sec.bytes) g h.0, AllLie-Grown xs ys bases secs g h.1)

-- An output that the phase makes from `out`.
pub record Merged (n : ℕ) (out out' : Elf) : Type 0 where
  pub same_syms : out'.syms ≡ out.syms
  pub grown : Grown out.secs out'.secs
  pub sound : All (SecSound n) out'.secs

-- Elf_SectionGet.
got-Merged :
    (n : ℕ) (name : Name) (type flags : ℕ) (out : Elf)
    → All (SecSound n) out.secs
    → Merged n out (section_get name type flags out).1
got-Merged n name type flags out h = go (section_get-In name type flags out).1
  where
    go :
        ((section_get name type flags out).1 ≡ out)
          ⊎ ((section_get name type flags out).1 ≡ section_add name type flags out)
        → Merged n out (section_get name type flags out).1
    go (inl e) =
        subst (Merged n out) (sym e)
          (record { same_syms = refl; grown = Grown-refl out.secs; sound = h })
    go (inr e) = subst (Merged n out) (sym e) (record {
      same_syms = refl;
      grown = Grown-append out.secs (empty_section name type flags ∷ []);
      sound = All-append (SecSound n) out.secs (empty_section name type flags ∷ []) h (tt, tt);
    })

with_section-length :
    (sec dst : Sec)
    → (length (with_section sec dst).bytes
        ≡ length (buf_align sec.addralign dst.bytes) + length sec.bytes)
      × (length dst.bytes ≤ length (with_section sec dst).bytes)
unfolding with_section
with_section-length sec dst =
    let whole = length-append (buf_align sec.addralign dst.bytes) sec.bytes in
    (whole, omega (arith, whole, buf_align_le sec.addralign dst.bytes))

with_section-SecSound : (n : ℕ) (sec dst : Sec) → SecSound n dst → SecSound n (with_section sec dst)
unfolding with_section
with_section-SecSound n sec dst h =
    All-map (Sound n (length dst.bytes)) (Sound n (length (with_section sec dst).bytes)) dst.relas
      (λ rel.
        Sound-weaken n n (length dst.bytes) (length (with_section sec dst).bytes) rel (omega arith)
          (with_section-length sec dst).1)
      h

merge_section-Merged :
    (n : ℕ) (sec : Sec) (out : Elf)
    → All (SecSound n) out.secs
    → (b : Base) × (out' : Elf) × (merge_section sec out ≡ ok (b, out'))
      × Merged n out out'
      × Lies out'.secs b (length sec.bytes)
unfolding merge_section
merge_section-Merged n sec out h =
    let k = (section_get sec.name sec.type sec.flags out).0 in
    let got = (section_get sec.name sec.type sec.flags out).1 in
    let m = got-Merged n sec.name sec.type sec.flags out h in
    let (dst, at) = (section_get-In sec.name sec.type sec.flags out).0 in
    let (whole, more) = with_section-length sec dst in
    let new = with_section sec dst in
    let b : Base = record { sec = k; at = length (buf_align sec.addralign dst.bytes) } in
    (
      b,
      record got { secs = set got.secs k new },
      rw (section_at-ok got.secs k dst at) refl,
      record {
        same_syms = m.same_syms;
        grown =
            Grown-trans out.secs got.secs (set got.secs k new) m.grown
              (Grown-set got.secs k dst new at more);
        sound =
            All-set (SecSound n) got.secs k new
              (with_section-SecSound n sec dst
                (All-get_elem? (SecSound n) got.secs k dst m.sound at))
              m.sound;
      },
      (
        new,
        get_elem?-set_self got.secs k new (lt_of_get_elem? got.secs k dst at),
        omega (arith, whole),
      ),
    )

-- The first phase returns; every input section lies in the output.
pub merge_sections-Merged :
    (n : ℕ) (secs : List Sec) (out : Elf)
    → All (SecSound n) out.secs
    → (bases : List Base) × (out' : Elf) × (merge_sections secs out ≡ ok (bases, out'))
      × Merged n out out'
      × AllLie out'.secs bases secs
unfolding merge_sections
merge_sections-Merged n [] out h =
    ([], out, refl, record { same_syms = refl; grown = Grown-refl out.secs; sound = h }, tt)
merge_sections-Merged n (sec ∷ secs) out h =
    let (b, out₁, e₁, m₁, l₁) = merge_section-Merged n sec out h in
    let (bases, out₂, e₂, m₂, l₂) = merge_sections-Merged n secs out₁ m₁.sound in
    (
      b ∷ bases,
      out₂,
      rw (e₁, e₂) refl,
      record {
        same_syms = m₂.same_syms ∙ m₁.same_syms;
        grown = Grown-trans out.secs out₁.secs out₂.secs m₁.grown m₂.grown;
        sound = m₂.sound;
      },
      (Lies-Grown out₁.secs out₂.secs b (length sec.bytes) m₂.grown l₁, l₂),
    )
