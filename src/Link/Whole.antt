-- ===== src/Link/Whole.antt =====
-- Objects that can be linked: every relocation is of a kind that the linker knows, patches bytes of its section and
-- names a symbol of the table, and every symbol's section is one of the object.
use mathlib.Core.Path.{subst}
use mathlib.Core.Option.{some-injective}
use ivan_cc.Prelude.{
  ℕ, ◌+◌, ◌≤◌, ◌<◌, Bool, true, ◌||◌, Option, none, some, List, ◌++◌, ◌≡◌, sym, ap, ◌∙◌, same_or,
  All, All-map, length, length-append, length-set, get_elem?, set, get_elem?-set_self,
  get_elem?-set_ne, get_elem?-append_left, lt_of_get_elem?, ◌==◌, inl, inr, if◌then◌else◌, arith,
}
use ivan_cc.Elf.Object.{Elf, Sec, Rela}
use ivan_cc.Rel.Apply.{r_x86_64_64, r_x86_64_pc32, r_x86_64_plt32, r_x86_64_32, r_x86_64_32s}

-- The bytes that a relocation of the kind patches.
abbrev pub width : ℕ → ℕ
width type = if type == r_x86_64_64 then 8 else 4

abbrev pub is_supported : ℕ → Bool
is_supported type =
    type == r_x86_64_pc32
    || type == r_x86_64_plt32
    || type == r_x86_64_32
    || type == r_x86_64_32s
    || type == r_x86_64_64

-- A relocation of a section with `size` bytes, with `n` symbols in the table.
pub record Sound (n size : ℕ) (rel : Rela) : Type 0 where
  pub supported : is_supported rel.type ≡ true
  pub inside : rel.offset + width rel.type ≤ size
  pub target : (i : ℕ) × (rel.sym ≡ some i) × (i < n)

abbrev pub SecSound : ℕ → Sec → Type 0
SecSound n sec = All (Sound n (length sec.bytes)) sec.relas

-- The section of a symbol, if it has one, is among `n`.
abbrev pub Within : ℕ → Option ℕ → Type 0
Within n none = Unit
Within n (some j) = j < n

pub record IsObject (elf : Elf) : Type 0 where
  pub relas : All (SecSound (length elf.syms)) elf.secs
  pub symbols : All (λ symbol. Within (length elf.secs) symbol.sec) elf.syms

-- Sections keep their places and none gets shorter.
pub record Grown (xs ys : List Sec) : Type 0 where
  pub longer : length xs ≤ length ys
  pub wider :
      (k : ℕ) (a : Sec)
      → get_elem? xs k ≡ some a
      → (b : Sec) × (get_elem? ys k ≡ some b) × (length a.bytes ≤ length b.bytes)

pub Grown-refl : (xs : List Sec) → Grown xs xs
Grown-refl xs = record { longer = omega arith; wider = λ k a h. (a, h, omega arith) }

pub Grown-trans : (xs ys zs : List Sec) → Grown xs ys → Grown ys zs → Grown xs zs
Grown-trans xs ys zs g h = record {
  longer = omega (arith, g.longer, h.longer);
  wider = λ k a e.
      let (b, eb, lb) = g.wider k a e in
      let (c, ec, lc) = h.wider k b eb in (c, ec, omega (arith, lb, lc));
}

pub Grown-append : (xs ys : List Sec) → Grown xs (xs ++ ys)
Grown-append xs ys = record {
  longer = omega (arith, length-append xs ys);
  wider = λ k a e. (a, get_elem?-append_left xs ys k a e, omega arith);
}

pub Grown-set :
    (xs : List Sec) (k : ℕ) (a b : Sec)
    → get_elem? xs k ≡ some a
    → length a.bytes ≤ length b.bytes
    → Grown xs (set xs k b)
Grown-set xs k a b e l = record { longer = omega (arith, length-set xs k b); wider = wider }
  where
    wider :
        (j : ℕ) (c : Sec)
        → get_elem? xs j ≡ some c
        → (d : Sec) × (get_elem? (set xs k b) j ≡ some d) × (length c.bytes ≤ length d.bytes)
    wider j c h = elim (same_or k j) [
      | inl q ↦ (
        b,
        subst (λ i. get_elem? (set xs k b) i ≡ some b) q
            (get_elem?-set_self xs k b (lt_of_get_elem? xs k a e)),
        subst (λ z. length z.bytes ≤ length b.bytes)
            (some-injective _ _ (sym e ∙ ap (get_elem? xs) q ∙ h)) l,
      )
      | inr ne ↦ (c, get_elem?-set_ne xs k j b ne ∙ h, omega arith)
    ]

pub Sound-weaken :
    (n n' size size' : ℕ) (rel : Rela)
    → n ≤ n'
    → size ≤ size'
    → Sound n size rel
    → Sound n' size' rel
Sound-weaken n n' size size' rel ln ls s = record {
  supported = s.supported;
  inside = omega (arith, s.inside);
  target = let (i, e, l) = s.target in (i, e, omega arith);
}

pub SecSound-weaken : (n n' : ℕ) → n ≤ n' → (sec : Sec) → SecSound n sec → SecSound n' sec
SecSound-weaken n n' l sec =
    let size = length sec.bytes in
    All-map (Sound n size) (Sound n' size) sec.relas
      (λ rel. Sound-weaken n n' size size rel l (omega arith))

pub Within-weaken : (n n' : ℕ) (o : Option ℕ) → n ≤ n' → Within n o → Within n' o
Within-weaken n n' none l h = tt
Within-weaken n n' (some j) l h = omega arith
