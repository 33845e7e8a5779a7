-- ===== src/Link/Symbols.antt =====
-- What the second phase of Link_Merge ensures.
use mathlib.Core.Path.{subst}
use mathlib.Core.Option.{some-injective}
use ivan_cc.Prelude.{
  ℕ, zero, suc, ◌+◌, ◌≤◌, ◌<◌, true, Option, none, some, List, [], ◌∷◌, ◌≡◌, refl, ap, ◌∙◌, inl,
  inr, All, All-set, All-append, length, length-append, length-set, get_elem?, lt_of_get_elem?,
  Ends, Ends->>=, multiple_definition, ◌==◌, ◌&&◌, ==_iff, Bool-cases, arith, Error,
}
use ivan_cc.Prelude.Name.{Name, name_eq}
use ivan_cc.Elf.Object.{Elf, Sec, Sym, symbol_add, bind_local}
use ivan_cc.Link.Index.{section_index_from, symbol_index_from, find_global, is_global}
use ivan_cc.Link.Whole.{Within}
use ivan_cc.Link.Merge.{
  Base, place_of, copied, add_copy, define_global, unify, merge_global, merge_by, merge_symbol,
  merge_symbols,
}
use ivan_cc.Link.Sections.{AllLie}

-- The error of two definitions of a global.
abbrev pub IsMultiple : Error → Type 0
IsMultiple (multiple_definition name) = Unit
IsMultiple _ = ⊥

-- The loops find a place of the array.
pub section_index_from-ok :
    (target i : ℕ) (secs : List Sec)
    → i ≤ target
    → target < i + length secs
    → section_index_from target i secs ≡ some target
unfolding section_index_from
section_index_from-ok target i [] l h = absurd (omega arith)
section_index_from-ok target i (sec ∷ secs) l h = elim (Bool-cases (i == target)) [
  | inl e ↦ rw e (ap some ((==_iff i target).0 e))
  | inr e ↦ rw e (section_index_from-ok target (i + 1) secs (ground arith) (omega arith))
]

pub symbol_index_from-ok :
    (target i : ℕ) (syms : List Sym)
    → i ≤ target
    → target < i + length syms
    → symbol_index_from target i syms ≡ some target
unfolding symbol_index_from
symbol_index_from-ok target i [] l h = absurd (omega arith)
symbol_index_from-ok target i (symbol ∷ syms) l h = elim (Bool-cases (i == target)) [
  | inl e ↦ rw e (ap some ((==_iff i target).0 e))
  | inr e ↦ rw e (symbol_index_from-ok target (i + 1) syms (ground arith) (omega arith))
]

-- Link_FindGlobal returns a place of the table, of a global of that name.
pub find_global-In :
    (name : Name) (i : ℕ) (syms : List Sym) (k : ℕ)
    → find_global name i syms ≡ some k
    → (j : ℕ) × (symbol : Sym) × (k ≡ i + j)
      × (get_elem? syms j ≡ some symbol)
      × ((is_global symbol && name_eq symbol.name name) ≡ true)
unfolding find_global
find_global-In name i [] k h = cc
find_global-In name i (symbol ∷ syms) k h =
    elim (Bool-cases (is_global symbol && name_eq symbol.name name)) [
      | inl t ↦ (0, symbol, omega (arith, some-injective _ _ (rw t at h)), refl, t)
      | inr f ↦
          let (j, s, e, at_j, g) = find_global-In name (i + 1) syms k (rw f at h) in
          (suc j, s, omega arith, at_j, g)
    ]

-- The base of an input section is in the output.
pub base_at_lt :
    (out : List Sec) (bases : List Base) (secs : List Sec) (j : ℕ)
    → AllLie out bases secs
    → j < length secs
    → (b : Base) × (get_elem? bases j ≡ some b) × (b.sec < length out)
base_at_lt out [] [] j h l = absurd (omega arith)
base_at_lt out [] (sec ∷ secs) j h l = elim h [ ]
base_at_lt out (b ∷ bases) [] j h l = elim h [ ]
base_at_lt out (b ∷ bases) (sec ∷ secs) zero h l =
    let (dst, e, inside) = h.0 in (b, refl, lt_of_get_elem? out b.sec dst e)
base_at_lt out (b ∷ bases) (sec ∷ secs) (suc j) h l = base_at_lt out bases secs j h.1 (omega arith)

-- The section of the output for an input symbol is in the output.
place_of-Within :
    (in_ : Elf) (out : List Sec) (bases : List Base) (value : ℕ) (o : Option ℕ)
    → AllLie out bases in_.secs
    → Within (length in_.secs) o
    → Ends IsMultiple (λ r. Within (length out) r.0) (place_of in_ bases value o)
unfolding place_of
place_of-Within in_ out bases value none h w = tt
place_of-Within in_ out bases value (some j) h w =
    let (b, at, l) = base_at_lt out bases in_.secs j h w in
    let found = section_index_from-ok j 0 in_.secs (omega arith) (omega (arith, w)) in
    rw (Ends, found, at) l

-- An output that a symbol, now at the place `p`, has been merged into.
pub record Named (m : ℕ) (out : Elf) (p : ℕ) (out' : Elf) : Type 0 where
  pub same_secs : out'.secs ≡ out.secs
  pub more : length out.syms ≤ length out'.syms
  pub there : p < length out'.syms
  pub within : All (λ symbol. Within m symbol.sec) out'.syms

add_copy-Named :
    (m : ℕ) (symbol : Sym) (dsec : Option ℕ) (value : ℕ) (out : Elf)
    → Within m dsec
    → All (λ s. Within m s.sec) out.syms
    → Ends IsMultiple (λ r. Named m out r.0 r.1) (add_copy (copied symbol dsec value) out)
unfolding add_copy symbol_add
add_copy-Named m symbol dsec value out w h =
    let longer = length-append out.syms (copied symbol dsec value ∷ []) in
    record {
      same_secs = refl;
      more = omega (arith, longer);
      there = omega (arith, longer);
      within = All-append (λ s. Within m s.sec) out.syms (copied symbol dsec value ∷ []) h (w, tt);
    }

unify-Named :
    (m e : ℕ) (symbol : Sym) (dsec : Option ℕ) (value : ℕ) (out : Elf) (existing : Sym)
    → get_elem? out.syms e ≡ some existing
    → Within m dsec
    → All (λ s. Within m s.sec) out.syms
    → Ends IsMultiple (λ r. Named m out r.0 r.1) (unify e symbol dsec value out)
unfolding unify define_global
unify-Named m e symbol none value out existing at w h = record {
  same_secs = refl;
  more = omega arith;
  there = lt_of_get_elem? out.syms e existing at;
  within = h;
}
unify-Named m e symbol (some d) value out existing at w h = rw (Ends, at) (go existing.sec refl)
  where
    there : e < length out.syms
    there = lt_of_get_elem? out.syms e existing at

    new : Sym
    new = record existing { sec = some d; value = value; type = symbol.type }

    go :
        (o : Option ℕ)
        → existing.sec ≡ o
        → Ends IsMultiple (λ r. Named m out r.0 r.1) (define_global e existing symbol d value out)
    go (some _) q = rw (Ends, q) tt
    go none q =
        rw (Ends, q)
          (record {
            same_secs = refl;
            more = omega (arith, length-set out.syms e new);
            there = omega (arith, length-set out.syms e new, there);
            within = All-set (λ s. Within m s.sec) out.syms e new w h;
          })

merge_by-Named :
    (m : ℕ) (symbol : Sym) (dsec : Option ℕ) (value : ℕ) (out : Elf)
    → Within m dsec
    → All (λ s. Within m s.sec) out.syms
    → Ends IsMultiple (λ r. Named m out r.0 r.1) (merge_by symbol dsec value out)
unfolding merge_by merge_global
merge_by-Named m symbol dsec value out w h = elim (Bool-cases (symbol.bind == bind_local)) [
  | inl e ↦ rw (Ends, e) copy
  | inr e ↦ rw (Ends, e) (go (find_global symbol.name 0 out.syms) refl)
]
  where
    copy : Ends IsMultiple (λ r. Named m out r.0 r.1) (add_copy (copied symbol dsec value) out)
    copy = add_copy-Named m symbol dsec value out w h

    go :
        (o : Option ℕ)
        → find_global symbol.name 0 out.syms ≡ o
        → Ends IsMultiple (λ r. Named m out r.0 r.1) (merge_global symbol dsec value out)
    go none q = rw (Ends, q) copy
    go (some e) q =
        let (j, existing, same, at, g) = find_global-In symbol.name 0 out.syms e q in
        let back : j ≡ e = omega (arith, same) in
        rw (Ends, q)
          (unify-Named m e symbol dsec value out existing
            (subst (λ k. get_elem? out.syms k ≡ some existing) back at) w h)

-- An output with a place for each of `count` symbols.
pub record AllNamed (m count : ℕ) (out : Elf) (places : List ℕ) (out' : Elf) : Type 0 where
  pub same_secs : out'.secs ≡ out.secs
  pub more : length out.syms ≤ length out'.syms
  pub whole : length places ≡ count
  pub there : All (λ p. p < length out'.syms) places
  pub within : All (λ symbol. Within m symbol.sec) out'.syms

AllNamed-next :
    (m count : ℕ) (out out' out'' : Elf) (p : ℕ) (ps : List ℕ)
    → Named m out p out'
    → AllNamed m count out' ps out''
    → AllNamed m (suc count) out (p ∷ ps) out''
AllNamed-next m count out out' out'' p ps a b = record {
  same_secs = b.same_secs ∙ a.same_secs;
  more = omega (arith, a.more, b.more);
  whole = ap suc b.whole;
  there = (omega (arith, a.there, b.more), b.there);
  within = b.within;
}

-- The second phase ends with a place for every input symbol, or at a second definition of a global.
pub merge_symbols-AllNamed :
    (in_ : Elf) (secs : List Sec) (bases : List Base) (syms : List Sym) (out : Elf)
    → AllLie secs bases in_.secs
    → All (λ s. Within (length in_.secs) s.sec) syms
    → All (λ s. Within (length secs) s.sec) out.syms
    → Ends IsMultiple
        (λ r. AllNamed (length secs) (length syms) out r.0 r.1)
        (merge_symbols in_ bases syms out)
unfolding merge_symbols merge_symbol
merge_symbols-AllNamed in_ secs bases [] out l w h = record {
  same_secs = refl;
  more = omega arith;
  whole = refl;
  there = tt;
  within = h;
}
merge_symbols-AllNamed in_ secs bases (symbol ∷ syms) out l w h =
    Ends->>= IsMultiple (λ (r : ℕ × Elf). Named m out r.0 r.1)
      (λ (r : List ℕ × Elf). AllNamed m (suc (length syms)) out r.0 r.1) _ _
      (Ends->>= IsMultiple (λ (r : Option ℕ × ℕ). Within m r.0)
        (λ (r : ℕ × Elf). Named m out r.0 r.1) _ _
        (place_of-Within in_ secs bases symbol.value symbol.sec l w.0)
        (λ r within. merge_by-Named m symbol r.0 r.1 out within h))
      (λ r named.
        Ends->>= IsMultiple (λ (q : List ℕ × Elf). AllNamed m (length syms) r.1 q.0 q.1)
          (λ (q : List ℕ × Elf). AllNamed m (suc (length syms)) out q.0 q.1) _ _
          (merge_symbols-AllNamed in_ secs bases syms r.1 l w.1 named.within)
          (λ q all. AllNamed-next m (length syms) out r.1 q.1 r.0 q.0 named all))
  where
    m : ℕ
    m = length secs
