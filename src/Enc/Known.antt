-- ===== src/Enc/Known.antt =====
-- The search for a symbol by its name.
use mathlib.Core.Path.{subst}
use mathlib.Core.Option.{some-injective}
use ivan_cc.Prelude.{
  ℕ, suc, ◌+◌, true, none, some, List, [], ◌∷◌, ◌++◌, ◌≡◌, refl, sym, ◌∙◌, ap, length, get_elem?,
  get_elem?-append_left, get_elem?-append_next, inl, inr, Bool-cases, arith,
}
use ivan_cc.Prelude.Name.{Name, name_eq, name_eq_refl, eq_of_name_eq}
use ivan_cc.Elf.Object.{Sym, find_sym}
use ivan_cc.Enc.Object.{undefined_symbol}

-- The search finds a symbol, and it has the name.
pub record Known (syms : List Sym) (name : Name) : Type 0 where
  pub index : ℕ
  pub symbol : Sym
  pub found : find_sym name 0 syms ≡ some index
  pub stands : get_elem? syms index ≡ some symbol
  pub named : symbol.name ≡ name

find_sym-append_left :
    (name : Name) (i : ℕ) (xs ys : List Sym) (k : ℕ)
    → find_sym name i xs ≡ some k
    → find_sym name i (xs ++ ys) ≡ some k
unfolding find_sym
find_sym-append_left name i [] ys k h = cc
find_sym-append_left name i (x ∷ xs) ys k h = elim (Bool-cases (name_eq x.name name)) [
  | inl t ↦ rw t (rw t at h)
  | inr f ↦ rw f (find_sym-append_left name (i + 1) xs ys k (rw f at h))
]

clash {ℓ} : {P : Type ℓ} {k : ℕ} → some k ≡ none → P
clash h = cc

-- A symbol that is added where there is none of its name is the one that is found.
find_sym-append_new :
    (name : Name) (i : ℕ) (xs : List Sym) (new : Sym)
    → new.name ≡ name
    → find_sym name i xs ≡ none
    → find_sym name i (xs ++ new ∷ []) ≡ some (i + length xs)
unfolding find_sym
find_sym-append_new name i [] new e h =
    rw (subst (λ n. name_eq n name ≡ true) (sym e) (name_eq_refl name)) (ap some (omega arith))
find_sym-append_new name i (x ∷ xs) new e h = elim (Bool-cases (name_eq x.name name)) [
  | inl t ↦ clash (rw t at h)
  | inr f ↦ rw f (find_sym-append_new name (i + 1) xs new e (rw f at h) ∙ ap some (omega arith))
]

find_sym_sound :
    (name : Name) (i : ℕ) (xs : List Sym) (k : ℕ)
    → find_sym name i xs ≡ some k
    → (j : ℕ) × (s : Sym) × (k ≡ i + j) × (get_elem? xs j ≡ some s) × (s.name ≡ name)
unfolding find_sym
find_sym_sound name i [] k h = cc
find_sym_sound name i (x ∷ xs) k h = elim (Bool-cases (name_eq x.name name)) [
  | inl t ↦ (0, x, omega (arith, some-injective _ _ (rw t at h)), refl, eq_of_name_eq x.name name t)
  | inr f ↦
      let (j, s, e, at_j, n) = find_sym_sound name (i + 1) xs k (rw f at h) in
      (suc j, s, omega arith, at_j, n)
]

pub Known-append :
    (syms : List Sym) (new : Sym) (name : Name) → Known syms name → Known (syms ++ new ∷ []) name
Known-append syms new name w = record {
  index = w.index;
  symbol = w.symbol;
  found = find_sym-append_left name 0 syms (new ∷ []) w.index w.found;
  stands = get_elem?-append_left syms (new ∷ []) w.index w.symbol w.stands;
  named = w.named;
}

pub Known-found :
    (syms : List Sym) (name : Name) (k : ℕ) → find_sym name 0 syms ≡ some k → Known syms name
Known-found syms name k h =
    let (j, s, e, at_j, n) = find_sym_sound name 0 syms k h in
    let j=k : j ≡ k = omega arith in
    record {
      index = k;
      symbol = s;
      found = h;
      stands = subst (λ i. get_elem? syms i ≡ some s) j=k at_j;
      named = n;
    }

pub Known-new :
    (syms : List Sym) (name : Name)
    → find_sym name 0 syms ≡ none
    → Known (syms ++ undefined_symbol name ∷ []) name
Known-new syms name h = record {
  index = length syms;
  symbol = undefined_symbol name;
  found = find_sym-append_new name 0 syms (undefined_symbol name) refl h ∙ ap some (omega arith);
  stands = get_elem?-append_next syms [] (undefined_symbol name);
  named = refl;
}
