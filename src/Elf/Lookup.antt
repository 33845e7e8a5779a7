-- ===== src/Elf/Lookup.antt =====
-- Sections of an object found by name: what Elf_SectionFind and Elf_SectionGet return.
use mathlib.Core.Option.{some-injective}
use mathlib.Core.Path.{subst}
use ivan_cc.Prelude.{
  ℕ, suc, ◌+◌, Option, none, some, List, [], ◌∷◌, ◌≡◌, refl, ◌⊎◌, inl, inr, Bool-cases, length,
  get_elem?, get_elem?-append_next, ok, arith,
}
use ivan_cc.Prelude.Name.{Name, name_eq}
use ivan_cc.Elf.Object.{
  Elf, Sec, find_sec, section_find, section_get, section_add, empty_section, section_at,
}

-- A section is at the place.
abbrev pub In : List Sec → ℕ → Type 0
In secs k = (sec : Sec) × (get_elem? secs k ≡ some sec)

pub section_at-ok :
    (secs : List Sec) (i : ℕ) (sec : Sec) → get_elem? secs i ≡ some sec → section_at secs i ≡ ok sec
section_at-ok secs i sec h = rw (section_at, h) refl

pub find_sec-In :
    (name : Name) (i : ℕ) (secs : List Sec) (k : ℕ)
    → find_sec name i secs ≡ some k
    → (j : ℕ) × (k ≡ i + j) × In secs j
unfolding find_sec
find_sec-In name i [] k h = cc
find_sec-In name i (sec ∷ secs) k h = elim (Bool-cases (name_eq sec.name name)) [
  | inl t ↦ (0, omega (arith, some-injective _ _ (rw t at h)), (sec, refl))
  | inr f ↦
      let (j, e, at_j) = find_sec-In name (i + 1) secs k (rw f at h) in (suc j, omega arith, at_j)
]

-- Elf_SectionGet returns a section of the object, and at most adds one.
pub section_get-In :
    (name : Name) (type flags : ℕ) (elf : Elf)
    → In (section_get name type flags elf).1.secs (section_get name type flags elf).0
      × (((section_get name type flags elf).1 ≡ elf)
          ⊎ ((section_get name type flags elf).1 ≡ section_add name type flags elf))
unfolding section_get
section_get-In name type flags elf = go (section_find elf name) refl
  where
    got : Option ℕ → ℕ × Elf
    got (some i) = (i, elf)
    got none = (length elf.secs, section_add name type flags elf)

    go :
        (o : Option ℕ)
        → section_find elf name ≡ o
        → In (got o).1.secs (got o).0
          × (((got o).1 ≡ elf) ⊎ ((got o).1 ≡ section_add name type flags elf))
    go (some k) h =
        let (j, same, at_j) = find_sec-In name 0 elf.secs k h in
        let back : j ≡ k = omega arith in (subst (In elf.secs) back at_j, inl refl)
    go none h =
        let new = empty_section name type flags in
        ((new, get_elem?-append_next elf.secs [] new), inr refl)
