-- ===== src/Enc/Linked.antt =====
-- The finished object: its symbols and its relocations.
use mathlib.Core.Path.{subst}
use ivan_cc.Prelude.{
  ℕ, Option, none, some, List, [], ◌∷◌, ◌≡◌, refl, sym, ◌∙◌, ap, All, All-append, All-map, All-set,
  negsuc, append-nil, get_elem?, All-get_elem?, ok, err, null_pointer, ◌>>=◌, bit_or,
}
use ivan_cc.Prelude.Name.{Name, text}
use ivan_cc.Asm.Types.{Item}
use ivan_cc.Elf.Lookup.{In, section_at-ok}
use ivan_cc.Elf.Extends.{Extends-set}
use ivan_cc.Elf.Object.{
  Elf, Sec, Sym, Rela, symbol_find, symbol_add, rela_add, section_get, find_sec, sht_progbits,
  shf_alloc, shf_execinstr,
}
use ivan_cc.Enc.Types.{Label, Fix}
use ivan_cc.Enc.Object.{
  Enc, label_symbol, label_symbols, target_symbols, undefined_symbol, unless_found, build_symbols,
  fix_rela, put_rela, build_relocs_from, build_relocs, select_section, build_object, reset,
}
use ivan_cc.Enc.Grows.{Field, HasName}
use ivan_cc.Enc.Sound.{FixIn, FixIn-Extends, Bare, Wf, HasTarget, emit_items-Wf}
use ivan_cc.Enc.Known.{Known, Known-append, Known-found, Known-new}

-- The relocation patches four zero bytes of its section and names a symbol of the table.
pub record Linked (syms : List Sym) (bytes : List ℕ) (r : Rela) : Type 0 where
  pub field : Field bytes r.offset
  pub addend : r.addend ≡ negsuc 3
  pub target : (i : ℕ) × (s : Sym) × (r.sym ≡ some i) × (get_elem? syms i ≡ some s)

abbrev pub AllLinked : Elf → Type 0
AllLinked elf = All (λ sec. All (Linked elf.syms sec.bytes) sec.relas) elf.secs

-- The fixup has a name, of a symbol of the table.
abbrev Resolved : List Sym → Fix → Type 0
Resolved syms f = (name : Name) × (f.name ≡ some name) × Known syms name

-- What holds of the symbols stays, and the sections stay as they are.
record Keeps (elf elf' : Elf) : Type 0 where
  pub secs : elf'.secs ≡ elf.secs
  pub known : (name : Name) → Known elf.syms name → Known elf'.syms name

unless_found-ok :
    (name : Name) (elf : Elf)
    → Known (unless_found name elf (symbol_find elf name)).syms name
      × Keeps elf (unless_found name elf (symbol_find elf name))
unfolding symbol_add
unless_found-ok name elf = go (symbol_find elf name) refl
  where
    go :
        (o : Option ℕ)
        → symbol_find elf name ≡ o
        → Known (unless_found name elf o).syms name × Keeps elf (unless_found name elf o)
    go (some k) h = (Known-found elf.syms name k h, record { secs = refl; known = λ other w. w })
    go none h = (
      Known-new elf.syms name h,
      record {
        secs = refl;
        known = λ other w. Known-append elf.syms (undefined_symbol name) other w;
      },
    )

target_symbols-ok :
    (fixes : List Fix) (elf : Elf)
    → All HasName fixes
    → (elf' : Elf) × (target_symbols fixes elf ≡ ok elf')
      × Keeps elf elf'
      × All (Resolved elf'.syms) fixes
unfolding target_symbols
target_symbols-ok [] elf h = (elf, refl, record { secs = refl; known = λ name w. w }, tt)
target_symbols-ok (f ∷ fixes) elf h =
    let (name, e) = h.0 in
    let next = unless_found name elf (symbol_find elf name) in
    let (known, keeps) = unless_found-ok name elf in
    let (elf', built, keeps', resolved) = target_symbols-ok fixes next h.1 in
    (
      elf',
      ap
            (λ o.
              (elim o [
                | none ↦ err null_pointer
                | some n ↦ ok (unless_found n elf (symbol_find elf n))
              ])
              >>= λ x. target_symbols fixes x)
            e
          ∙ built,
      record {
        secs = keeps'.secs ∙ keeps.secs;
        known = λ other w. keeps'.known other (keeps.known other w);
      },
      ((name, e, keeps'.known name known), resolved),
    )

label_symbols-ok :
    (globls : List Name) (labels : List Label) (elf : Elf)
    → All (λ l. In elf.secs l.sec) labels
    → (elf' : Elf) × (label_symbols globls labels elf ≡ ok elf') × (elf'.secs ≡ elf.secs)
unfolding label_symbols symbol_add
label_symbols-ok globls [] elf h = (elf, refl, refl)
label_symbols-ok globls (l ∷ labels) elf h =
    let (sec, at_l) = h.0 in
    let (elf', e, same) =
      label_symbols-ok globls labels (symbol_add (label_symbol globls l sec) elf) h.1 in
    let first = section_at-ok elf.secs l.sec sec at_l in
    (
      elf',
      ap (λ o. o >>= λ c. label_symbols globls labels (symbol_add (label_symbol globls l c) elf))
            first
          ∙ e,
      same,
    )

build_relocs_from-ok :
    (fixes : List Fix) (elf : Elf)
    → All (FixIn elf.secs) fixes
    → All (Resolved elf.syms) fixes
    → AllLinked elf
    → (elf' : Elf) × (build_relocs_from fixes elf ≡ ok elf') × AllLinked elf'
unfolding build_relocs_from fix_rela
build_relocs_from-ok [] elf h k a = (elf, refl, a)
build_relocs_from-ok (f ∷ fixes) elf h k a =
    let (sec, at_f, field, named) = h.0 in
    let (name, e, w) = k.0 in
    let r = fix_rela elf f in
    let linked : Linked elf.syms sec.bytes r = record {
      field = field;
      addend = refl;
      target = (
        w.index,
        w.symbol,
        ap (λ o. elim o [ none ↦ none | some n ↦ symbol_find elf n ]) e ∙ w.found,
        w.stands,
      );
    } in
    let P : Sec → Type 0 = λ c. All (Linked elf.syms c.bytes) c.relas in
    let old = All-get_elem? P elf.secs f.sec sec a at_f in
    let new = All-append (Linked elf.syms sec.bytes) sec.relas (r ∷ []) old (linked, tt) in
    let x = Extends-set elf.secs f.sec sec (rela_add r sec) [] at_f (sym (append-nil sec.bytes)) in
    let rest =
      build_relocs_from-ok fixes (put_rela elf f sec)
        (All-map _ _ fixes (FixIn-Extends elf.secs _ x) h.1) k.1
        (All-set P elf.secs f.sec (rela_add r sec) new a) in
    let first = section_at-ok elf.secs f.sec sec at_f in
    (rest.0, ap (λ o. o >>= λ c. build_relocs_from fixes (put_rela elf f c)) first ∙ rest.1, rest.2)

-- Where no relocation stands yet, every one is linked.
Bare-AllLinked :
    (syms : List Sym) (secs : List Sec)
    → Bare secs
    → All (λ sec. All (Linked syms sec.bytes) sec.relas) secs
Bare-AllLinked syms secs bare =
    All-map (λ sec. sec.relas ≡ []) (λ sec. All (Linked syms sec.bytes) sec.relas) secs
      (λ sec e. subst (All (Linked syms sec.bytes)) (sym e) tt) bare

start-Wf : Wf (select_section (text ".text") sht_progbits (bit_or shf_alloc shf_execinstr) reset)
unfolding select_section section_get find_sec
start-Wf = record { here = (_, refl); labelled = tt; pending = tt; bare = (refl, tt) }

finish :
    (e : Enc) → Wf e → (e' : Enc) × ((build_symbols e >>= build_relocs) ≡ ok e') × AllLinked e'.out
unfolding build_symbols build_relocs
finish e w =
    let (elf, labelled, same) = label_symbols-ok e.globls e.labels e.out w.labelled in
    let names = All-map (FixIn e.out.secs) HasName e.fixes (λ f p. p.3) w.pending in
    let (out, found, keeps, resolved) = target_symbols-ok e.fixes elf names in
    let kept = keeps.secs ∙ same in
    let (elf', built, linked) =
      build_relocs_from-ok e.fixes out
        (subst (λ secs. All (FixIn secs) e.fixes) (sym kept) w.pending) resolved
        (Bare-AllLinked out.syms out.secs (subst Bare (sym kept) w.bare)) in
    let first =
      ap
        (λ o.
          (o >>= (λ x. target_symbols e.fixes x >>= λ y. ok (record e { out = y })))
          >>= build_relocs)
        labelled in
    let second = ap (λ o. (o >>= λ y. ok (record e { out = y })) >>= build_relocs) found in
    (
      record e { out = elf' },
      first ∙ (second ∙ ap (λ o. o >>= λ x. ok (record e { out = x })) built),
      linked,
    )

-- The encoder turns every list of items whose branches name their targets into an object, and each relocation of the
-- object patches four zero bytes inside its section, has the addend -4 and refers to a symbol of the object's table.
pub build_object-AllLinked :
    (items : List Item)
    → All HasTarget items
    → (e : Enc) × (build_object items ≡ ok e) × AllLinked e.out
unfolding build_object
build_object-AllLinked items n =
    let (e, emitted, w) = emit_items-Wf items _ n start-Wf in
    let (e', built, linked) = finish e w in
    (e', ap (λ o. o >>= λ x. build_symbols x >>= build_relocs) emitted ∙ built, linked)
