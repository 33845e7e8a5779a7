-- ===== src/Elf/Extends.antt =====
-- Sections that grow at their ends.
use mathlib.Core.Option.{some-injective}
use mathlib.Core.Path.{subst}
use ivan_cc.Prelude.{
  ℕ, some, List, [], ◌++◌, ◌≡◌, sym, ap, ◌∙◌, inl, inr, same_or, append-nil, append_assoc,
  get_elem?, set, get_elem?-set_self, get_elem?-set_ne, get_elem?-append_left, lt_of_get_elem?,
}
use ivan_cc.Elf.Object.{Sec}
use ivan_cc.Elf.Lookup.{In}

-- Sections keep their places and what they hold stays a prefix.
abbrev pub Extends : List Sec → List Sec → Type 0
Extends xs ys =
    (k : ℕ) (a : Sec)
    → get_elem? xs k ≡ some a
    → (b : Sec) × (get_elem? ys k ≡ some b) × ((more : List ℕ) × (b.bytes ≡ a.bytes ++ more))

pub In-Extends : (xs ys : List Sec) → Extends xs ys → (k : ℕ) → In xs k → In ys k
In-Extends xs ys ext k (a, e) = let (b, e', m) = ext k a e in (b, e')

pub Extends-refl : (xs : List Sec) → Extends xs xs
Extends-refl xs k a e = (a, e, ([], sym (append-nil a.bytes)))

pub Extends-append : (xs ys : List Sec) → Extends xs (xs ++ ys)
Extends-append xs ys k a e = (a, get_elem?-append_left xs ys k a e, ([], sym (append-nil a.bytes)))

pub Extends-set :
    (xs : List Sec) (i : ℕ) (a b : Sec) (more : List ℕ)
    → get_elem? xs i ≡ some a
    → b.bytes ≡ a.bytes ++ more
    → Extends xs (set xs i b)
Extends-set xs i a b more e l k c e' = elim (same_or i k) [
  | inl p ↦
      let at_k =
        subst (λ n. get_elem? (set xs i b) n ≡ some b) p
          (get_elem?-set_self xs i b (lt_of_get_elem? xs i a e)) in
      let same = some-injective a c (sym e ∙ (ap (get_elem? xs) p ∙ e')) in
      (b, at_k, (more, l ∙ ap (λ (z : Sec). z.bytes ++ more) same))
  | inr n ↦ (c, get_elem?-set_ne xs i k b n ∙ e', ([], sym (append-nil c.bytes)))
]

pub Extends-trans : (xs ys zs : List Sec) → Extends xs ys → Extends ys zs → Extends xs zs
Extends-trans xs ys zs f g k a e =
    let (b, at_b, (more, l)) = f k a e in
    let (c, at_c, (more', l')) = g k b at_b in
    (c, at_c, (more ++ more', l' ∙ (ap (λ bs. bs ++ more') l ∙ append_assoc a.bytes more more')))
