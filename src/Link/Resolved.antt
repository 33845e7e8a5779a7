-- ===== src/Link/Resolved.antt =====
-- Where the definitions of an input go in a merge.
use mathlib.Core.Path.{subst}
use mathlib.Core.Option.{some-injective}
use ivan_cc.Prelude.{
  ℕ, zero, suc, ◌+◌, ◌%◌, ◌^◌, Option, none, some, List, [], ◌∷◌, ◌++◌, ◌≡◌, refl, sym, ap, ◌∙◌,
  ◌⊎◌, inl, inr, length, get_elem?, get_elem?-set_self, get_elem?-set_ne, lt_of_get_elem?, same_or,
  set, append_assoc, append-nil, Outcome, ok, err, Ends, Error, arith,
}
use ivan_cc.Prelude.Name.{Name}
use ivan_cc.Elf.Object.{Elf, Sec, Sym, section_get, section_add, empty_section}
use ivan_cc.Elf.Lookup.{section_at-ok, section_get-In}
use ivan_cc.Elf.Extends.{Extends, Extends-refl, Extends-append, Extends-set, Extends-trans}
use ivan_cc.Elf.Buffer.{buf_align, buf_align-zeros, zeros}
use ivan_cc.Link.Symbols.{section_index_from-ok}
use ivan_cc.Link.Merge.{Base, with_section, merge_section, merge_sections, place_of}

-- Any error.
abbrev pub Any : Error → Type 0
Any e = Unit

-- The bytes are those of the section of the base, from its offset on.
abbrev pub Holds : List Sec → Base → List ℕ → Type 0
Holds secs b bytes =
    (dst : Sec) × (get_elem? secs b.sec ≡ some dst)
    × ((before : List ℕ) × (after : List ℕ) × (dst.bytes ≡ before ++ (bytes ++ after))
        × (length before ≡ b.at))

pub Holds-Extends :
    (xs ys : List Sec) (b : Base) (bytes : List ℕ)
    → Extends xs ys
    → Holds xs b bytes
    → Holds ys b bytes
Holds-Extends xs ys b bytes ext (dst, at, (before, after, e, l)) =
    let (dst', at', (more, e')) = ext b.sec dst at in
    (
      dst',
      at',
      (
        before,
        after ++ more,
        e'
            ∙ (ap (λ bs. bs ++ more) e
                ∙ (append_assoc before (bytes ++ after) more
                    ∙ ap (λ bs. before ++ bs) (append_assoc bytes after more))),
        l,
      ),
    )

abbrev pub AllHold : List Sec → List Base → List Sec → Type 0
AllHold out [] [] = Unit
AllHold out (b ∷ bases) (sec ∷ secs) = Holds out b sec.bytes × AllHold out bases secs
AllHold out _ _ = ⊥

-- The first phase keeps the symbols, extends sections, and holds the input's bytes.
pub record Filled (out out' : Elf) : Type 0 where
  pub same_syms : out'.syms ≡ out.syms
  pub extends : Extends out.secs out'.secs

got-Filled :
    (name : Name) (type flags : ℕ) (out : Elf) → Filled out (section_get name type flags out).1
got-Filled name type flags out = go (section_get-In name type flags out).1
  where
    got : Elf
    got = (section_get name type flags out).1

    go : (got ≡ out) ⊎ (got ≡ section_add name type flags out) → Filled out got
    go (inl e) =
        subst (Filled out) (sym e) (record { same_syms = refl; extends = Extends-refl out.secs })
    go (inr e) = subst (Filled out) (sym e) (record {
      same_syms = refl;
      extends = Extends-append out.secs (empty_section name type flags ∷ []);
    })

merge_section-Holds :
    (sec : Sec) (out : Elf)
    → (b : Base) × (out' : Elf) × (merge_section sec out ≡ ok (b, out'))
      × Filled out out'
      × Holds out'.secs b sec.bytes
unfolding merge_section with_section
merge_section-Holds sec out =
    let k = (section_get sec.name sec.type sec.flags out).0 in
    let got = (section_get sec.name sec.type sec.flags out).1 in
    let f = got-Filled sec.name sec.type sec.flags out in
    let (dst, at) = (section_get-In sec.name sec.type sec.flags out).0 in
    let new = with_section sec dst in
    let pad = buf_align sec.addralign dst.bytes in
    let (n, padded) = buf_align-zeros sec.addralign dst.bytes in
    let b : Base = record { sec = k; at = length pad } in
    let longer = ap (λ bs. bs ++ sec.bytes) padded ∙ append_assoc dst.bytes (zeros n) sec.bytes in
    (
      b,
      record got { secs = set got.secs k new },
      rw (section_at-ok got.secs k dst at) refl,
      record {
        same_syms = f.same_syms;
        extends =
            Extends-trans out.secs got.secs (set got.secs k new) f.extends
              (Extends-set got.secs k dst new (zeros n ++ sec.bytes) at longer);
      },
      (
        new,
        get_elem?-set_self got.secs k new (lt_of_get_elem? got.secs k dst at),
        (pad, [], ap (λ bs. pad ++ bs) (sym (append-nil sec.bytes)), refl),
      ),
    )

AllHold-Extends :
    (xs ys : List Sec) (bases : List Base) (secs : List Sec)
    → Extends xs ys
    → AllHold xs bases secs
    → AllHold ys bases secs
AllHold-Extends xs ys [] [] ext h = tt
AllHold-Extends xs ys [] (sec ∷ secs) ext h = elim h [ ]
AllHold-Extends xs ys (b ∷ bases) [] ext h = elim h [ ]
AllHold-Extends xs ys (b ∷ bases) (sec ∷ secs) ext h =
    (Holds-Extends xs ys b sec.bytes ext h.0, AllHold-Extends xs ys bases secs ext h.1)

pub merge_sections-AllHold :
    (secs : List Sec) (out : Elf)
    → (bases : List Base) × (out' : Elf) × (merge_sections secs out ≡ ok (bases, out'))
      × Filled out out'
      × AllHold out'.secs bases secs
unfolding merge_sections
merge_sections-AllHold [] out =
    ([], out, refl, record { same_syms = refl; extends = Extends-refl out.secs }, tt)
merge_sections-AllHold (sec ∷ secs) out =
    let (b, out₁, e₁, f₁, h₁) = merge_section-Holds sec out in
    let (bases, out₂, e₂, f₂, h₂) = merge_sections-AllHold secs out₁ in
    (
      b ∷ bases,
      out₂,
      rw (e₁, e₂) refl,
      record {
        same_syms = f₂.same_syms ∙ f₁.same_syms;
        extends = Extends-trans out.secs out₁.secs out₂.secs f₁.extends f₂.extends;
      },
      (Holds-Extends out₁.secs out₂.secs b sec.bytes f₂.extends h₁, h₂),
    )

AllHold-base :
    (out : List Sec) (bases : List Base) (secs : List Sec) (j : ℕ) (sec : Sec)
    → AllHold out bases secs
    → get_elem? secs j ≡ some sec
    → (b : Base) × (get_elem? bases j ≡ some b) × Holds out b sec.bytes
AllHold-base out bases [] j sec h e = cc
AllHold-base out [] (s ∷ secs) j sec h e = elim h [ ]
AllHold-base out (b ∷ bases) (s ∷ secs) zero sec h e =
    (b, refl, subst (λ (z : Sec). Holds out b z.bytes) (some-injective _ _ e) h.0)
AllHold-base out (b ∷ bases) (s ∷ secs) (suc j) sec h e = AllHold-base out bases secs j sec h.1 e

-- The section and the value are where the definition of the input symbol lies among the output sections.
abbrev pub Goes : Elf → List Sec → Sym → Option ℕ → ℕ → Type 0
Goes in_ secs symbol dsec value =
    (j : ℕ) (sec : Sec)
    → symbol.sec ≡ some j
    → get_elem? in_.secs j ≡ some sec
    → (b : Base) × Holds secs b sec.bytes
      × (dsec ≡ some b.sec)
      × (value ≡ (b.at + symbol.value) % 2 ^ 64)

pub Goes-none :
    (in_ : Elf) (secs : List Sec) (symbol : Sym) (d : Option ℕ) (v : ℕ)
    → symbol.sec ≡ none
    → Goes in_ secs symbol d v
Goes-none in_ secs symbol d v e = λ j sec h at. cc

pub Ends-Any : {A : Type 0} (P : A → Type 0) (m : Outcome A) → ((a : A) → P a) → Ends Any P m
Ends-Any P (ok a) h = h a
Ends-Any P (err e) h = tt

pub place_of-Goes :
    (in_ : Elf) (secs : List Sec) (bases : List Base) (symbol : Sym) (o : Option ℕ)
    → AllHold secs bases in_.secs
    → symbol.sec ≡ o
    → Ends Any (λ r. Goes in_ secs symbol r.0 r.1) (place_of in_ bases symbol.value o)
unfolding place_of
place_of-Goes in_ secs bases symbol none h e = Goes-none in_ secs symbol none 0 e
place_of-Goes in_ secs bases symbol (some k) h e = go (get_elem? in_.secs k) refl
  where
    go :
        (found : Option Sec)
        → get_elem? in_.secs k ≡ found
        → Ends Any (λ r. Goes in_ secs symbol r.0 r.1) (place_of in_ bases symbol.value (some k))
    go none f =
        Ends-Any (λ (r : Option ℕ × ℕ). Goes in_ secs symbol r.0 r.1) _
          (λ r j sec is_j at. let same = some-injective _ _ (sym e ∙ is_j) in cc (f, at, same))
    go (some sec) f =
        let (b, at, holds) = AllHold-base secs bases in_.secs k sec h f in
        let index =
          section_index_from-ok k 0 in_.secs (omega arith)
            (omega (arith, lt_of_get_elem? in_.secs k sec f)) in
        rw (Ends, index, at)
          (λ j sec' is_j at'.
            let same = some-injective _ _ (sym e ∙ is_j) in
            let same_sec = some-injective _ _ (sym f ∙ (ap (get_elem? in_.secs) same ∙ at')) in
            (b, subst (λ (z : Sec). Holds secs b z.bytes) same_sec holds, refl, refl))

-- A symbol keeps its name, and its place once it has one.
pub record Stay (t t' : Sym) : Type 0 where
  pub same_name : t'.name ≡ t.name
  pub same_place : (d : ℕ) → t.sec ≡ some d → (t'.sec ≡ some d) × (t'.value ≡ t.value)

abbrev pub Stays : List Sym → List Sym → Type 0
Stays xs ys =
    (p : ℕ) (t : Sym)
    → get_elem? xs p ≡ some t
    → (t' : Sym) × (get_elem? ys p ≡ some t') × Stay t t'

pub Stay-refl : (t : Sym) → Stay t t
Stay-refl t = record { same_name = refl; same_place = λ d e. (e, refl) }

pub Stays-refl : (xs : List Sym) → Stays xs xs
Stays-refl xs p t e = (t, e, Stay-refl t)

pub Stays-trans : (xs ys zs : List Sym) → Stays xs ys → Stays ys zs → Stays xs zs
Stays-trans xs ys zs f g p t e =
    let (t', e', s) = f p t e in
    let (t'', e'', s') = g p t' e' in
    (
      t'',
      e'',
      record {
        same_name = s'.same_name ∙ s.same_name;
        same_place = λ d q.
            let (q', v) = s.same_place d q in let (q'', v') = s'.same_place d q' in (q'', v' ∙ v);
      },
    )

pub Stays-set :
    (xs : List Sym) (k : ℕ) (old new : Sym)
    → get_elem? xs k ≡ some old
    → Stay old new
    → Stays xs (set xs k new)
Stays-set xs k old new e s p t at = elim (same_or k p) [
  | inl q ↦ (
    new,
    subst (λ i. get_elem? (set xs k new) i ≡ some new) q
        (get_elem?-set_self xs k new (lt_of_get_elem? xs k old e)),
    subst (λ z. Stay z new) (some-injective _ _ (sym e ∙ (ap (get_elem? xs) q ∙ at))) s,
  )
  | inr ne ↦ (t, get_elem?-set_ne xs k p new ne ∙ at, Stay-refl t)
]
