-- ===== src/Link/Applied.antt =====
-- What Rel_x86_64_Apply ensures of an object that can be linked.
use mathlib.Core.Path.{subst}
use ivan_cc.Prelude.{
  ℕ, ◌+◌, ◌%◌, ◌^◌, ◌≤◌, true, false, ◌||◌, Option, none, some, List, [], ◌∷◌, ◌++◌, ◌≡◌, refl, sym,
  ◌∙◌, All, All-set, All-get_elem?, append_assoc, length, length-append, length-set, get_elem?,
  get_elem?_of_lt, get_elem?-append_next, set, Ends, Ends->>=, Ends-weaken, Error, arith, ℤ, ◌==◌,
  inl, inr, Bool-cases,
}
use ivan_cc.Elf.Object.{Elf, Sec, Sym, Rela}
use ivan_cc.Elf.Lookup.{section_at-ok}
use ivan_cc.Rel.Patch.{patch_le}
use ivan_cc.Rel.Apply.{
  r_x86_64_64, r_x86_64_pc32, r_x86_64_plt32, r_x86_64_32, r_x86_64_32s, symbol_addr, patch_by,
  rel_one, apply_relas, apply_secs, apply,
}
use ivan_cc.Rel.Field.{patch_le-Patched}
use ivan_cc.Link.Whole.{
  Sound, SecSound, Within, IsObject, Grown, Grown-refl, Grown-trans, Grown-set, width, is_supported,
}

-- No error at all.
abbrev pub Never : Error → Type 0
Never e = ⊥

abbrev SameLength : List ℕ → List ℕ → Type 0
SameLength bytes new = length new ≡ length bytes

patch_le-SameLength :
    (offset value w : ℕ) (bytes : List ℕ)
    → offset + w ≤ length bytes
    → Ends Never (SameLength bytes) (patch_le offset value w bytes)
patch_le-SameLength offset value w bytes h =
    let p = patch_le-Patched offset value w bytes h in rw (Ends, p.1) p.2.same_length

patch_by-SameLength :
    (type offset S P : ℕ) (A : ℤ) (bytes : List ℕ)
    → is_supported type ≡ true
    → offset + width type ≤ length bytes
    → Ends Never (SameLength bytes) (patch_by type offset S A P bytes)
unfolding patch_by
patch_by-SameLength type offset S P A bytes known inside =
    elim (Bool-cases (type == r_x86_64_pc32 || type == r_x86_64_plt32)) [
      | inl t ↦ rw (Ends, t) (patch_le-SameLength offset _ 4 bytes (four inside))
      | inr f ↦ elim (Bool-cases (type == r_x86_64_32 || type == r_x86_64_32s)) [
        | inl t ↦ rw (Ends, f, t) (patch_le-SameLength offset _ 4 bytes (four inside))
        | inr g ↦ elim (Bool-cases (type == r_x86_64_64)) [
          | inl t ↦ rw (Ends, f, g, t) (patch_le-SameLength offset _ 8 bytes (eight t inside))
          | inr h ↦ absurd (unknown f g h known)
        ]
      ]
    ]
  where
    four : offset + width type ≤ length bytes → offset + 4 ≤ length bytes
    four l = elim (Bool-cases (type == r_x86_64_64)) [
      | inl t ↦ let q = rw t at l in omega arith
      | inr f ↦ rw f at l
    ]

    eight :
        (type == r_x86_64_64) ≡ true
        → offset + width type ≤ length bytes
        → offset + 8 ≤ length bytes
    eight t l = rw t at l

    unknown :
        (type == r_x86_64_pc32 || type == r_x86_64_plt32) ≡ false
        → (type == r_x86_64_32 || type == r_x86_64_32s) ≡ false
        → (type == r_x86_64_64) ≡ false
        → is_supported type ≡ true
        → ⊥
    unknown f g h k = ground arith

-- An object with the same table and places, after some patches.
pub record Applied (elf elf' : Elf) : Type 0 where
  pub same_syms : elf'.syms ≡ elf.syms
  pub same_count : length elf'.secs ≡ length elf.secs
  pub grown : Grown elf.secs elf'.secs
  pub relas : All (SecSound (length elf.syms)) elf'.secs

Applied-refl : (elf : Elf) → IsObject elf → Applied elf elf
Applied-refl elf o = record {
  same_syms = refl;
  same_count = refl;
  grown = Grown-refl elf.secs;
  relas = o.relas;
}

Applied-trans : (a b c : Elf) → Applied a b → Applied b c → Applied a c
Applied-trans a b c x y = record {
  same_syms = y.same_syms ∙ x.same_syms;
  same_count = y.same_count ∙ x.same_count;
  grown = Grown-trans a.secs b.secs c.secs x.grown y.grown;
  relas = subst (λ syms. All (SecSound (length syms)) c.secs) x.same_syms y.relas;
}

pub Applied-IsObject : (elf elf' : Elf) → IsObject elf → Applied elf elf' → IsObject elf'
Applied-IsObject elf elf' o a = record {
  relas = subst (λ syms. All (SecSound (length syms)) elf'.secs) (sym a.same_syms) a.relas;
  symbols =
      subst (All (λ s. Within (length elf'.secs) s.sec)) (sym a.same_syms)
        (subst (λ n. All (λ s. Within n s.sec) elf.syms) (sym a.same_count) o.symbols);
}

-- A symbol whose section is in the object has an address.
pub symbol_addr-Ends :
    (secs : List Sec) (symbol : Sym)
    → Within (length secs) symbol.sec
    → Ends Never (λ a. Unit {0}) (symbol_addr secs symbol)
unfolding symbol_addr
symbol_addr-Ends secs symbol w = go symbol.sec w refl
  where
    go :
        (o : Option ℕ)
        → Within (length secs) o
        → symbol.sec ≡ o
        → Ends Never (λ a. Unit {0}) (symbol_addr secs symbol)
    go none w e = rw (Ends, e) tt
    go (some j) w e =
        let (sec, at) = get_elem?_of_lt secs j w in rw (Ends, e, section_at-ok secs j sec at) tt

rel_one-Applied :
    (k size : ℕ) (rel : Rela) (elf : Elf) (sec : Sec)
    → IsObject elf
    → get_elem? elf.secs k ≡ some sec
    → size ≤ length sec.bytes
    → Sound (length elf.syms) size rel
    → Ends Never (Applied elf) (rel_one k rel elf)
unfolding rel_one
rel_one-Applied k size rel elf sec o at l s =
    let (i, is_i, below) = s.target in
    let (symbol, at_i) = get_elem?_of_lt elf.syms i below in
    let within =
      All-get_elem? (λ x. Within (length elf.secs) x.sec) elf.syms i symbol o.symbols at_i in
    rw (Ends, section_at-ok elf.secs k sec at, is_i, at_i)
      (Ends->>= Never (λ a. Unit {0}) (Applied elf) _ _ (symbol_addr-Ends elf.secs symbol within)
        (λ S u.
          Ends->>= Never (SameLength sec.bytes) (Applied elf) _ _
            (patch_by-SameLength rel.type rel.offset S ((sec.addr + rel.offset) % 2 ^ 64) rel.addend
              sec.bytes s.supported (omega (arith, s.inside)))
            (λ bytes same. written bytes same)))
  where
    written :
        (bytes : List ℕ)
        → SameLength sec.bytes bytes
        → Applied elf (record elf { secs = set elf.secs k (record sec { bytes = bytes }) })
    written bytes same =
        let new : Sec = record sec { bytes = bytes } in
        record {
          same_syms = refl;
          same_count = length-set elf.secs k new;
          grown = Grown-set elf.secs k sec new at (omega (arith, same));
          relas =
              All-set (SecSound (length elf.syms)) elf.secs k new
                (subst (λ n. All (Sound (length elf.syms) n) sec.relas) (sym same)
                  (All-get_elem? (SecSound (length elf.syms)) elf.secs k sec o.relas at))
                o.relas;
        }

apply_relas-Applied :
    (k size : ℕ) (relas : List Rela) (elf : Elf) (sec : Sec)
    → IsObject elf
    → get_elem? elf.secs k ≡ some sec
    → size ≤ length sec.bytes
    → All (Sound (length elf.syms) size) relas
    → Ends Never (Applied elf) (apply_relas k relas elf)
unfolding apply_relas
apply_relas-Applied k size [] elf sec o at l s = Applied-refl elf o
apply_relas-Applied k size (rel ∷ relas) elf sec o at l s =
    Ends->>= Never (Applied elf) (Applied elf) _ _ (rel_one-Applied k size rel elf sec o at l s.0)
      (λ elf' a.
        let (sec', at', l') = a.grown.wider k sec at in
        Ends-weaken Never Never (Applied elf') (Applied elf) _ (λ e x. x)
          (λ elf'' b. Applied-trans elf elf' elf'' a b)
          (apply_relas-Applied k size relas elf' sec' (Applied-IsObject elf elf' o a) at'
            (omega (arith, l, l'))
            (subst (λ syms. All (Sound (length syms) size) relas) (sym a.same_syms) s.1)))

-- The sections from place `k` on have the bytes of `rest`, or more.
abbrev Covered : ℕ → List Sec → List Sec → Type 0
Covered k [] secs = Unit
Covered k (sec ∷ rest) secs =
    ((b : Sec) × (get_elem? secs k ≡ some b) × (length sec.bytes ≤ length b.bytes))
    × Covered (k + 1) rest secs

Covered-Grown :
    (k : ℕ) (rest xs ys : List Sec) → Grown xs ys → Covered k rest xs → Covered k rest ys
Covered-Grown k [] xs ys g h = tt
Covered-Grown k (sec ∷ rest) xs ys g h =
    let (b, at, l) = h.0 in
    let (c, at', l') = g.wider k b at in
    ((c, at', omega (arith, l, l')), Covered-Grown (k + 1) rest xs ys g h.1)

Covered-append : (before rest : List Sec) → Covered (length before) rest (before ++ rest)
Covered-append before [] = tt
Covered-append before (sec ∷ rest) = (
  (sec, get_elem?-append_next before rest sec, omega arith),
  subst (λ i. Covered i rest (before ++ sec ∷ rest)) longer
      (subst (Covered (length (before ++ sec ∷ [])) rest) (append_assoc before (sec ∷ []) rest)
        (Covered-append (before ++ sec ∷ []) rest)),
)
  where
    longer : length (before ++ sec ∷ []) ≡ length before + 1
    longer = omega (arith, length-append before (sec ∷ []))

apply_secs-Applied :
    (k : ℕ) (rest : List Sec) (elf : Elf)
    → IsObject elf
    → Covered k rest elf.secs
    → All (SecSound (length elf.syms)) rest
    → Ends Never (Applied elf) (apply_secs k rest elf)
unfolding apply_secs
apply_secs-Applied k [] elf o c s = Applied-refl elf o
apply_secs-Applied k (sec ∷ rest) elf o c s =
    let (b, at, l) = c.0 in
    Ends->>= Never (Applied elf) (Applied elf) _ _
      (apply_relas-Applied k (length sec.bytes) sec.relas elf b o at l s.0)
      (λ elf' a.
        Ends-weaken Never Never (Applied elf') (Applied elf) _ (λ e x. x)
          (λ elf'' b. Applied-trans elf elf' elf'' a b)
          (apply_secs-Applied (k + 1) rest elf' (Applied-IsObject elf elf' o a)
            (Covered-Grown (k + 1) rest elf.secs elf'.secs a.grown c.1)
            (subst (λ syms. All (SecSound (length syms)) rest) (sym a.same_syms) s.1)))

-- Rel_x86_64_Apply on an object that can be linked returns, and keeps the lengths and the places.
pub apply-Applied : (elf : Elf) → IsObject elf → Ends Never (Applied elf) (apply elf)
unfolding apply
apply-Applied elf o = apply_secs-Applied 0 elf.secs elf o (Covered-append [] elf.secs) o.relas
