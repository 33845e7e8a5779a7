-- ===== src/Elf/Listed.antt =====
-- Where a symbol is in the symbol table of the file.
use mathlib.Core.Path.{subst}
use mathlib.Core.Option.{some-injective}
use ivan_cc.Prelude.{
  ℕ, zero, suc, ◌+◌, ◌*◌, ◌^◌, ◌≤◌, ◌<◌, true, false, some, List, [], ◌∷◌, ◌++◌, ◌≡◌, refl, sym, ap,
  ◌∙◌, inl, inr, length, get_elem?, get_elem?-set_self, append-nil, ◌==◌, if◌then◌else◌, Bool-cases,
  arith,
}
use ivan_cc.Elf.Object.{Elf, Sym, bind_local, bind_global}
use ivan_cc.Elf.Loads.{LiesAt, LiesAt-before, length-zeros}
use ivan_cc.Elf.Symtab.{
  Tables, entry_size, entry_bytes, entry_of, str_offset, write_symbol, pass_symbol, write_pass,
  write_locals, write_symtab, start_tables, bind_class,
}
use ivan_cc.Elf.Entries.{
  names_size, Room, Grows, pass_symbol-Room, write_pass-Room, write_pass-before, write_pass-other,
}

-- The symbol at the place `i` has a slot, from `low` on and before `high`, with its entry, which leads to its name.
pub record Listed (secidx : List ℕ) (i : ℕ) (symbol : Sym) (low high : ℕ) (t : Tables)
    : Type 0 where
  pub number : ℕ
  pub name : ℕ
  pub short : name < 2 ^ 32
  pub slotted : get_elem? t.slot i ≡ some number
  pub from : low ≤ number
  pub below : number < high
  pub entry : LiesAt t.symtab (number * entry_size) (entry_bytes (entry_of secidx symbol name))
  pub named : LiesAt t.strtab name (symbol.name ++ 0 ∷ [])

Listed-Grows :
    (secidx : List ℕ) (i : ℕ) (symbol : Sym) (low high : ℕ) (t t' : Tables)
    → Grows t t'
    → get_elem? t'.slot i ≡ get_elem? t.slot i
    → Listed secidx i symbol low high t
    → Listed secidx i symbol low high t'
Listed-Grows secidx i symbol low high t t' g same w =
    let (more, e) = g.symtab in
    let (more', e') = g.strtab in
    let bytes = entry_bytes (entry_of secidx symbol w.name) in
    record {
      number = w.number;
      name = w.name;
      short = w.short;
      slotted = same ∙ w.slotted;
      from = w.from;
      below = w.below;
      entry =
          subst (λ file. LiesAt file (w.number * entry_size) bytes) (sym e)
            (LiesAt-before t.symtab more (w.number * entry_size) bytes w.entry);
      named =
          subst (λ file. LiesAt file w.name (symbol.name ++ 0 ∷ [])) (sym e')
            (LiesAt-before t.strtab more' w.name (symbol.name ++ 0 ∷ []) w.named);
    }

write_symbol-Listed :
    (secidx : List ℕ) (i : ℕ) (symbol : Sym) (t : Tables) (n size : ℕ)
    → Room (suc n) size t
    → i < length t.slot
    → Listed secidx i symbol t.next
        (write_symbol secidx i symbol t).next
        (write_symbol secidx i symbol t)
unfolding write_symbol
write_symbol-Listed secidx i symbol t n size r l =
    let bytes = entry_bytes (entry_of secidx symbol (str_offset t.strtab)) in
    record {
      number = t.next;
      name = str_offset t.strtab;
      short = omega arith;
      slotted = get_elem?-set_self t.slot i t.next l;
      from = omega arith;
      below = omega (arith, r.slots);
      entry = (t.symtab, [], ap (λ z. t.symtab ++ z) (sym (append-nil bytes)), r.whole);
      named = (
        t.strtab,
        [],
        ap (λ z. t.strtab ++ z) (sym (append-nil (symbol.name ++ 0 ∷ []))),
        omega (arith, r.strings),
      );
    }

pass_symbol-Listed :
    (want : ℕ) (secidx : List ℕ) (i : ℕ) (symbol : Sym) (t : Tables) (n size : ℕ)
    → (bind_class symbol == want) ≡ true
    → Room (suc n) size t
    → i < length t.slot
    → Listed secidx i symbol t.next
        (pass_symbol want secidx i symbol t).next
        (pass_symbol want secidx i symbol t)
unfolding pass_symbol
pass_symbol-Listed want secidx i symbol t n size c r l =
    subst
      (λ b.
        Listed secidx i symbol t.next (if b then write_symbol secidx i symbol t else t).next
          (if b then write_symbol secidx i symbol t else t))
      (sym c) (write_symbol-Listed secidx i symbol t n size r l)

Listed-weaken :
    (secidx : List ℕ) (i : ℕ) (symbol : Sym) (low low' high high' : ℕ) (t : Tables)
    → low' ≤ low
    → high ≤ high'
    → Listed secidx i symbol low high t
    → Listed secidx i symbol low' high' t
Listed-weaken secidx i symbol low low' high high' t l h w = record {
  number = w.number;
  name = w.name;
  short = w.short;
  slotted = w.slotted;
  from = omega (arith, w.from);
  below = omega (arith, w.below);
  entry = w.entry;
  named = w.named;
}

write_pass-Listed :
    (want : ℕ) (secidx : List ℕ) (i j : ℕ) (syms : List Sym) (t : Tables) (symbol : Sym)
    (n size : ℕ)
    → get_elem? syms j ≡ some symbol
    → (bind_class symbol == want) ≡ true
    → Room (length syms + n) (names_size syms + size) t
    → i + length syms ≤ length t.slot
    → Listed secidx
        (i + j)
        symbol
        t.next
        (write_pass want secidx i syms t).next
        (write_pass want secidx i syms t)
unfolding write_pass pass_symbol
write_pass-Listed want secidx i j [] t symbol n size e c r l = cc
write_pass-Listed want secidx i zero (s ∷ syms) t symbol n size e c r l =
    let room : Room (suc (length syms + n)) (length s.name + 1 + (names_size syms + size)) t =
      record {
        slots = omega (arith, r.slots);
        strings = omega (arith, r.strings);
        whole = r.whole;
      } in
    let t' = pass_symbol want secidx i s t in
    let step = pass_symbol-Room want secidx i s t (length syms + n) (names_size syms + size) room in
    let rest = write_pass-Room want secidx (i + 1) syms t' n size step.0 in
    let same : symbol ≡ s = sym (some-injective _ _ e) in
    let here : i ≡ i + 0 = omega arith in
    let listed =
      pass_symbol-Listed want secidx i s t (length syms + n)
        (length s.name + 1 + (names_size syms + size))
        (subst (λ z. (bind_class z == want) ≡ true) same c) room (omega arith) in
    let last = write_pass want secidx (i + 1) syms t' in
    subst (λ z. Listed secidx (i + 0) z t.next last.next last) (sym same)
      (subst (λ k. Listed secidx k s t.next last.next last) here
        (Listed-Grows secidx i s t.next last.next t' last rest.1
          (write_pass-before want secidx (i + 1) i syms t' (omega arith))
          (Listed-weaken secidx i s t.next t.next t'.next last.next t' (omega arith) rest.1.next
            listed)))
write_pass-Listed want secidx i (suc j) (s ∷ syms) t symbol n size e c r l =
    let room : Room (suc (length syms + n)) (length s.name + 1 + (names_size syms + size)) t =
      record {
        slots = omega (arith, r.slots);
        strings = omega (arith, r.strings);
        whole = r.whole;
      } in
    let t' = pass_symbol want secidx i s t in
    let step = pass_symbol-Room want secidx i s t (length syms + n) (names_size syms + size) room in
    let rest =
      write_pass-Listed want secidx (i + 1) j syms t' symbol n size e c step.0
        (omega (arith, step.1.same_slots)) in
    let shift : i + 1 + j ≡ i + suc j = omega arith in
    let last = write_pass want secidx (i + 1) syms t' in
    subst (λ k. Listed secidx k symbol t.next last.next last) shift
      (Listed-weaken secidx (i + 1 + j) symbol t'.next t.next last.next last.next last step.1.next
        (omega arith) rest)

-- A symbol of the object in the tables: a local one below the first global slot, any other from there on.
pub record InOrder (secidx : List ℕ) (i : ℕ) (symbol : Sym) (t : Tables) (first_global : ℕ)
    : Type 0 where
  pub local_below : (symbol.bind == bind_local) ≡ true → Listed secidx i symbol 1 first_global t
  pub global_from :
      (symbol.bind == bind_local) ≡ false → Listed secidx i symbol first_global t.next t

start-Room :
    (syms : List Sym)
    → 1 + (length syms + length syms) < 2 ^ 32
    → 1 + (names_size syms + names_size syms) < 2 ^ 32
    → Room
        (length syms + length syms)
        (names_size syms + names_size syms)
        (start_tables (length syms))
start-Room syms l m = record { slots = l; strings = m; whole = refl }

Room-add_zero : (n size : ℕ) (t : Tables) → Room n size t → Room (n + 0) (size + 0) t
Room-add_zero n size t r = record {
  slots = omega (arith, r.slots);
  strings = omega (arith, r.strings);
  whole = r.whole;
}

-- Elf_WriteSymtab, on an object with so few symbols and bytes of names that twice as many stay below 2 ^ 32: every
-- symbol has a slot in the table, with an entry of its binding, type, section and value; the entry's name offset leads
-- to the name and its NUL in the string table; and the slots of the local symbols come before the first global one,
-- those of the others do not.
pub write_symtab-InOrder :
    (elf : Elf) (secidx : List ℕ) (i : ℕ) (symbol : Sym)
    → 1 + (length elf.syms + length elf.syms) < 2 ^ 32
    → 1 + (names_size elf.syms + names_size elf.syms) < 2 ^ 32
    → get_elem? elf.syms i ≡ some symbol
    → InOrder secidx i symbol (write_symtab elf secidx).0 (write_symtab elf secidx).1
unfolding write_symtab
write_symtab-InOrder elf secidx i symbol l m e =
    let back : 0 + i ≡ i = omega arith in
    subst (λ k. InOrder secidx k symbol last locals.next) back
      (elim (Bool-cases (symbol.bind == bind_local)) [
        | inl c ↦
            let listed =
              write_pass-Listed bind_local secidx 0 i elf.syms start symbol (length elf.syms)
                (names_size elf.syms) e (class_local c) room slots in
            let other =
              write_pass-other bind_global secidx 0 i elf.syms locals symbol e (class_other c) in
            record {
              local_below = λ q.
                  Listed-Grows secidx (0 + i) symbol 1 locals.next locals last second.1 other
                    listed;
              global_from = λ q. cc (c, q);
            }
        | inr c ↦ record {
          local_below = λ q. cc (c, q);
          global_from = λ q.
              write_pass-Listed bind_global secidx 0 i elf.syms locals symbol 0 0 e (class_global c)
                again (omega (arith, first.1.same_slots, slots));
        }
      ])
  where
    start : Tables
    start = start_tables (length elf.syms)

    locals : Tables
    locals = write_locals secidx elf.syms

    last : Tables
    last = write_pass bind_global secidx 0 elf.syms locals

    room :
        Room (length elf.syms + length elf.syms) (names_size elf.syms + names_size elf.syms) start
    room = start-Room elf.syms l m

    slots : 0 + length elf.syms ≤ length start.slot
    slots = omega (arith, length-zeros (length elf.syms))

    first : Room (length elf.syms) (names_size elf.syms) locals × Grows start locals
    first =
        write_pass-Room bind_local secidx 0 elf.syms start (length elf.syms) (names_size elf.syms)
          room

    again : Room (length elf.syms + 0) (names_size elf.syms + 0) locals
    again = Room-add_zero (length elf.syms) (names_size elf.syms) locals first.0

    second : Room 0 0 last × Grows locals last
    second = write_pass-Room bind_global secidx 0 elf.syms locals 0 0 again

    class_local : (symbol.bind == bind_local) ≡ true → (bind_class symbol == bind_local) ≡ true
    class_local c = rw c refl

    class_other : (symbol.bind == bind_local) ≡ true → (bind_class symbol == bind_global) ≡ false
    class_other c = rw c refl

    class_global : (symbol.bind == bind_local) ≡ false → (bind_class symbol == bind_global) ≡ true
    class_global c = rw c refl
