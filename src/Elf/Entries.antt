-- ===== src/Elf/Entries.antt =====
-- The entries of the symbol table.
use mathlib.Core.Path.{subst}
use mathlib.Core.Option.{some-injective}
use ivan_cc.Prelude.{
  ℕ, zero, suc, ◌+◌, ◌*◌, ◌^◌, ◌≤◌, ◌<◌, false, some, List, [], ◌∷◌, ◌++◌, ◌≡◌, ◌≢◌, refl, sym, ap,
  ◌∙◌, inl, inr, length, length-append, length-set, get_elem?, get_elem?-set_ne, append_assoc,
  append-nil, ◌==◌, Bool-cases, arith,
}
use ivan_cc.Elf.Object.{Sym}
use ivan_cc.Elf.Symtab.{
  Tables, entry_size, entry_bytes, entry_of, str_offset, write_symbol, pass_symbol, write_pass,
  bind_class,
}

-- The bytes that the names take.
abbrev pub names_size : List Sym → ℕ
names_size [] = 0
names_size (symbol ∷ syms) = length symbol.name + 1 + names_size syms

-- Tables in which `n` more symbols and `size` more bytes of names have room.
pub record Room (n size : ℕ) (t : Tables) : Type 0 where
  pub slots : t.next + n < 2 ^ 32
  pub strings : length t.strtab + size < 2 ^ 32
  pub whole : length t.symtab ≡ t.next * entry_size

-- Tables that grow.
pub record Grows (t t' : Tables) : Type 0 where
  pub symtab : (more : List ℕ) × (t'.symtab ≡ t.symtab ++ more)
  pub strtab : (more : List ℕ) × (t'.strtab ≡ t.strtab ++ more)
  pub next : t.next ≤ t'.next
  pub same_slots : length t'.slot ≡ length t.slot

pub Grows-refl : (t : Tables) → Grows t t
Grows-refl t = record {
  symtab = ([], sym (append-nil t.symtab));
  strtab = ([], sym (append-nil t.strtab));
  next = omega arith;
  same_slots = refl;
}

joined :
    (xs ys zs more more' : List ℕ) → ys ≡ xs ++ more → zs ≡ ys ++ more' → zs ≡ xs ++ (more ++ more')
joined xs ys zs more more' e f = f ∙ (ap (λ z. z ++ more') e ∙ append_assoc xs more more')

pub Grows-trans : (a b c : Tables) → Grows a b → Grows b c → Grows a c
Grows-trans a b c g h = record {
  symtab = (
    g.symtab.0 ++ h.symtab.0,
    joined a.symtab b.symtab c.symtab g.symtab.0 h.symtab.0 g.symtab.1 h.symtab.1,
  );
  strtab = (
    g.strtab.0 ++ h.strtab.0,
    joined a.strtab b.strtab c.strtab g.strtab.0 h.strtab.0 g.strtab.1 h.strtab.1,
  );
  next = omega (arith, g.next, h.next);
  same_slots = h.same_slots ∙ g.same_slots;
}

pub pass_symbol-Room :
    (want : ℕ) (secidx : List ℕ) (i : ℕ) (symbol : Sym) (t : Tables) (n size : ℕ)
    → Room (suc n) (length symbol.name + 1 + size) t
    → Room n size (pass_symbol want secidx i symbol t)
      × Grows t (pass_symbol want secidx i symbol t)
unfolding pass_symbol write_symbol
pass_symbol-Room want secidx i symbol t n size r = elim (Bool-cases (bind_class symbol == want)) [
  | inr f ↦ rw f (
    record { slots = omega (arith, r.slots); strings = omega (arith, r.strings); whole = r.whole },
    Grows-refl t,
  )
  | inl e ↦
      let bytes = entry_bytes (entry_of secidx symbol (str_offset t.strtab)) in
      let named = length-append symbol.name (0 ∷ []) in
      rw e (
        record {
          slots = omega (arith, r.slots);
          strings = omega (arith, r.strings, named, length-append t.strtab (symbol.name ++ 0 ∷ []));
          whole = omega (arith, r.whole, r.slots, length-append t.symtab bytes);
        },
        record {
          symtab = (bytes, refl);
          strtab = (symbol.name ++ 0 ∷ [], refl);
          next = omega (arith, r.slots);
          same_slots = length-set t.slot i t.next;
        },
      )
]

pub write_pass-Room :
    (want : ℕ) (secidx : List ℕ) (i : ℕ) (syms : List Sym) (t : Tables) (n size : ℕ)
    → Room (length syms + n) (names_size syms + size) t
    → Room n size (write_pass want secidx i syms t) × Grows t (write_pass want secidx i syms t)
unfolding write_pass pass_symbol
write_pass-Room want secidx i [] t n size r = (
  record { slots = omega (arith, r.slots); strings = omega (arith, r.strings); whole = r.whole },
  Grows-refl t,
)
write_pass-Room want secidx i (symbol ∷ syms) t n size r =
    let t' = pass_symbol want secidx i symbol t in
    let first =
      pass_symbol-Room want secidx i symbol t (length syms + n) (names_size syms + size) (record {
        slots = omega (arith, r.slots);
        strings = omega (arith, r.strings);
        whole = r.whole;
      }) in
    let rest = write_pass-Room want secidx (i + 1) syms t' n size first.0 in
    (rest.0, Grows-trans t t' (write_pass want secidx (i + 1) syms t') first.1 rest.1)

-- Slots of other symbols stay.
pass_symbol-ne :
    (want : ℕ) (secidx : List ℕ) (i j : ℕ) (symbol : Sym) (t : Tables)
    → i ≢ j
    → get_elem? (pass_symbol want secidx i symbol t).slot j ≡ get_elem? t.slot j
unfolding pass_symbol write_symbol
pass_symbol-ne want secidx i j symbol t ne = elim (Bool-cases (bind_class symbol == want)) [
  | inl e ↦ rw e (get_elem?-set_ne t.slot i j t.next ne)
  | inr f ↦ rw f refl
]

pub write_pass-before :
    (want : ℕ) (secidx : List ℕ) (i j : ℕ) (syms : List Sym) (t : Tables)
    → j < i
    → get_elem? (write_pass want secidx i syms t).slot j ≡ get_elem? t.slot j
unfolding write_pass pass_symbol
write_pass-before want secidx i j [] t l = refl
write_pass-before want secidx i j (symbol ∷ syms) t l =
    write_pass-before want secidx (i + 1) j syms (pass_symbol want secidx i symbol t) (omega arith)
    ∙ pass_symbol-ne want secidx i j symbol t (λ e. omega arith)

pub write_pass-other :
    (want : ℕ) (secidx : List ℕ) (i j : ℕ) (syms : List Sym) (t : Tables) (symbol : Sym)
    → get_elem? syms j ≡ some symbol
    → (bind_class symbol == want) ≡ false
    → get_elem? (write_pass want secidx i syms t).slot (i + j) ≡ get_elem? t.slot (i + j)
unfolding write_pass pass_symbol
write_pass-other want secidx i j [] t symbol e f = cc
write_pass-other want secidx i zero (s ∷ syms) t symbol e f =
    write_pass-before want secidx (i + 1) (i + 0) syms (pass_symbol want secidx i s t) (omega arith)
    ∙ rw (pass_symbol, subst (λ z. (bind_class z == want) ≡ false) (sym (some-injective _ _ e)) f)
        refl
write_pass-other want secidx i (suc j) (s ∷ syms) t symbol e f =
    let t' = pass_symbol want secidx i s t in
    let shift : i + 1 + j ≡ i + suc j = omega arith in
    subst (λ k. get_elem? (write_pass want secidx (i + 1) syms t').slot k ≡ get_elem? t'.slot k)
      shift (write_pass-other want secidx (i + 1) j syms t' symbol e f)
    ∙ pass_symbol-ne want secidx i (i + suc j) s t (λ q. omega arith)
