-- ===== src/Elf/Tabled.antt =====
-- What a reader of the symbol table finds, field by field.
use ivan_cc.Prelude.{
  ℕ, ◌+◌, ◌*◌, ◌/◌, ◌%◌, ◌^◌, ◌≤◌, ◌<◌, true, false, none, some, List, [], ◌∷◌, ◌++◌, ◌≡◌, refl,
  ◌∙◌, ap, length, get_elem?, ◌==◌, arith,
}
use ivan_cc.Elf.Object.{Elf, Sym, bind_local}
use ivan_cc.Elf.Loads.{LiesAt}
use ivan_cc.Elf.Symtab.{Tables, entry_size, entry_bytes, entry_of, write_symtab, section_index}
use ivan_cc.Elf.Entries.{names_size}
use ivan_cc.Elf.Listed.{Listed, write_symtab-InOrder}
use ivan_cc.Elf.Reader.{field, from_little}
use ivan_cc.Elf.Words.{from_little8, from_little4, from_little2, field-within}

-- The entry number `number` of the table has the binding, type, section and value of the symbol, and the offset of its
-- name; an undefined symbol has the section 0.
pub record Tabled (secidx : List ℕ) (i : ℕ) (symbol : Sym) (low high : ℕ) (t : Tables)
    : Type 0 where
  pub number : ℕ
  pub name : ℕ
  pub slotted : get_elem? t.slot i ≡ some number
  pub from : low ≤ number
  pub below : number < high
  pub name_field : field t.symtab (number * 24 + 0) 4 ≡ name
  pub bind_field : field t.symtab (number * 24 + 4) 1 / 16 ≡ symbol.bind % 16
  pub type_field : field t.symtab (number * 24 + 4) 1 % 16 ≡ symbol.type % 16
  pub undefined : symbol.sec ≡ none → field t.symtab (number * 24 + 6) 2 ≡ 0
  pub section_field :
      (j n : ℕ)
      → symbol.sec ≡ some j
      → get_elem? secidx j ≡ some n
      → field t.symtab (number * 24 + 6) 2 ≡ n % 2 ^ 16
  pub value_field :
      (j : ℕ) → symbol.sec ≡ some j → field t.symtab (number * 24 + 8) 8 ≡ symbol.value % 2 ^ 64
  pub named : LiesAt t.strtab name (symbol.name ++ 0 ∷ [])

Listed-Tabled :
    (secidx : List ℕ) (i : ℕ) (symbol : Sym) (low high : ℕ) (t : Tables)
    → Listed secidx i symbol low high t
    → Tabled secidx i symbol low high t
unfolding field from_little
Listed-Tabled secidx i symbol low high t w =
    let e = entry_of secidx symbol w.name in
    let bytes = entry_bytes e in
    let at = w.number * entry_size in
    let info : field t.symtab (at + 4) 1 ≡ field bytes 4 1 =
      field-within t.symtab at bytes 4 1 w.entry refl refl refl in
    let section : field t.symtab (at + 6) 2 ≡ e.shndx % 2 ^ 16 =
      field-within t.symtab at bytes 6 2 w.entry refl refl refl ∙ from_little2 e.shndx in
    let value : field t.symtab (at + 8) 8 ≡ e.value % 2 ^ 64 =
      field-within t.symtab at bytes 8 8 w.entry refl refl refl ∙ from_little8 e.value in
    record {
      number = w.number;
      name = w.name;
      slotted = w.slotted;
      from = w.from;
      below = w.below;
      name_field =
          field-within t.symtab at bytes 0 4 w.entry refl refl refl
          ∙ (from_little4 w.name ∙ omega (arith, w.short));
      bind_field = ap (λ n. n / 16) info ∙ omega arith;
      type_field = ap (λ n. n % 16) info ∙ omega arith;
      undefined = λ u.
          section ∙ ap (λ s. (elim s [ none ↦ 0 | some j ↦ section_index secidx j ]) % 2 ^ 16) u;
      section_field = λ j n u g.
          section
          ∙ (ap (λ s. (elim s [ none ↦ 0 | some j ↦ section_index secidx j ]) % 2 ^ 16) u
              ∙ ap (λ o. (elim o [ none ↦ 0 | some n ↦ n ]) % 2 ^ 16) g);
      value_field =
          λ j u. value ∙ ap (λ s. (elim s [ none ↦ 0 | some _ ↦ symbol.value ]) % 2 ^ 64) u;
      named = w.named;
    }

-- A local symbol has its entry below the first global one, any other from there on.
pub record Ordered (secidx : List ℕ) (i : ℕ) (symbol : Sym) (t : Tables) (first_global : ℕ)
    : Type 0 where
  pub local_below : (symbol.bind == bind_local) ≡ true → Tabled secidx i symbol 1 first_global t
  pub global_from :
      (symbol.bind == bind_local) ≡ false → Tabled secidx i symbol first_global t.next t

-- Elf_WriteSymtab, on an object with so few symbols and bytes of names that twice as many stay below 2 ^ 32: every
-- symbol has an entry in the table which, read field by field, has its binding and its type, the index of its section, 0
-- where it has none, its value where it has a section, and an offset at which its name lies, with its NUL, in the string
-- table; and the entries of the local symbols come before the first global one, those of the others do not.
pub write_symtab-Ordered :
    (elf : Elf) (secidx : List ℕ) (i : ℕ) (symbol : Sym)
    → 1 + (length elf.syms + length elf.syms) < 2 ^ 32
    → 1 + (names_size elf.syms + names_size elf.syms) < 2 ^ 32
    → get_elem? elf.syms i ≡ some symbol
    → Ordered secidx i symbol (write_symtab elf secidx).0 (write_symtab elf secidx).1
write_symtab-Ordered elf secidx i symbol l m e =
    let w = write_symtab-InOrder elf secidx i symbol l m e in
    record {
      local_below = λ q. Listed-Tabled secidx i symbol 1 _ _ (w.local_below q);
      global_from = λ q. Listed-Tabled secidx i symbol _ _ _ (w.global_from q);
    }
