-- ===== src/Enc/Object.antt =====
-- The object file that the encoder builds: Enc_x86_64_BuildSymbols, BuildRelocs and BuildObject.
use ivan_cc.Prelude.{
  Option, ℕ, Bool, false, ◌==◌, ◌||◌, if◌then◌else◌, some, none, List, [], ◌∷◌, ◌++◌, ℤ, negsuc,
  set, length, Outcome, ok, err, null_pointer, ◌>>=◌, bit_or, bit_and,
}
use ivan_cc.Prelude.Name.{Name, text, name_eq}
use ivan_cc.Asm.Types.{Item}
use ivan_cc.Elf.Object
use ivan_cc.Elf.Object.{
  section_at, Elf, Sec, Sym, Rela, section_get, symbol_add, symbol_find, rela_add, sht_progbits,
  shf_alloc, shf_execinstr, bind_local, bind_global, type_notype, type_object, type_func, et_rel,
  em_x86_64,
}
use ivan_cc.Enc.Types.{Label, Fix, Site}
use ivan_cc.Enc.Bytes.{emit_raw}
use ivan_cc.Enc.Instr.{emit_instr}

-- The static variables of the encoder; `cur` is the place of the current section in the object.
pub record Enc : Type 0 where
  pub out : Elf
  pub cur : ℕ
  pub labels : List Label
  pub globls : List Name
  pub fixes : List Fix

abbrev pub site_of : Enc → Sec → Site
site_of e sec = record { sec = e.cur; bytes = sec.bytes; fixes = e.fixes }

-- The encoder after the writes to the current section, which is `sec`.
abbrev pub put_site : Enc → Sec → Site → Enc
put_site e sec s = record e {
  out = record e.out { secs = set e.out.secs e.cur (record sec { bytes = s.bytes }) };
  fixes = s.fixes;
}

-- Writes to the current section.
unfoldable pub on_site : (Site → Site) → Enc → Outcome Enc
on_site f e = do sec ← section_at e.out.secs e.cur; ok (put_site e sec (f (site_of e sec)))

abbrev pub new_label : Name → Enc → Sec → Label
new_label name e sec = record { name = name; sec = e.cur; off = length sec.bytes }

unfoldable pub record_label : Name → Enc → Outcome Enc
record_label name e = do
  sec ← section_at e.out.secs e.cur
  ok (record e { labels = e.labels ++ new_label name e sec ∷ [] })

abbrev pub record_globl : Name → Enc → Enc
record_globl name e = record e { globls = e.globls ++ name ∷ [] }

unfoldable pub is_globl : List Name → Name → Bool
is_globl [] name = false
is_globl (g ∷ globls) name = name_eq g name || is_globl globls name

unfoldable pub select_section : Name → ℕ → ℕ → Enc → Enc
unfolding section_get
select_section name type flags e =
    let (i, elf) = section_get name type flags e.out in record e { out = elf; cur = i }

-- The symbol of a label.
unfoldable pub label_symbol : List Name → Label → Sec → Sym
label_symbol globls l sec =
    let global = is_globl globls l.name in
    record {
      name = l.name;
      sec = some l.sec;
      value = l.off;
      bind = if global then bind_global else bind_local;
      type =
          if global
          then if bit_and sec.flags shf_execinstr == 0 then type_object else type_func
          else type_notype;
    }

-- The first loop of Enc_x86_64_BuildSymbols.
unfoldable pub label_symbols : List Name → List Label → Elf → Outcome Elf
label_symbols globls [] elf = ok elf
label_symbols globls (l ∷ labels) elf = do
  sec ← section_at elf.secs l.sec
  label_symbols globls labels (symbol_add (label_symbol globls l sec) elf)

abbrev pub undefined_symbol : Name → Sym
undefined_symbol name = record {
  name = name;
  sec = none;
  value = 0;
  bind = bind_global;
  type = type_notype;
}

-- What the body of the second loop does with the result of Elf_SymbolFind.
abbrev pub unless_found : Name → Elf → Option ℕ → Elf
unless_found name elf (some i) = elf
unless_found name elf none = symbol_add (undefined_symbol name) elf

-- Elf_SymbolFind compares the names of the table with the name, and Elf_SymbolAdd copies it: neither may be NULL.
abbrev pub target_symbol : Fix → Elf → Outcome Elf
target_symbol f elf = elim f.name [
  | none ↦ err null_pointer
  | some name ↦ ok (unless_found name elf (symbol_find elf name))
]

-- The second loop of Enc_x86_64_BuildSymbols.
unfoldable pub target_symbols : List Fix → Elf → Outcome Elf
target_symbols [] elf = ok elf
target_symbols (f ∷ fixes) elf = do elf' ← target_symbol f elf; target_symbols fixes elf'

unfoldable pub build_symbols : Enc → Outcome Enc
build_symbols e = do
  elf ← label_symbols e.globls e.labels e.out
  elf' ← target_symbols e.fixes elf
  ok (record e { out = elf' })

-- ENC_X86_64_REL32_ADDEND.
abbrev pub rel32_addend : ℤ
rel32_addend = negsuc 3

-- The relocation of a fixup; the symbol is NULL where the table has none of that name. No fixup without a name gets
-- here.
unfoldable pub fix_rela : Elf → Fix → Rela
fix_rela elf f = record {
  offset = f.off;
  sym = elim f.name [ none ↦ none | some name ↦ symbol_find elf name ];
  type = f.type;
  addend = rel32_addend;
}

-- The object with the relocation of `f` in `sec`, the section that it patches.
abbrev pub put_rela : Elf → Fix → Sec → Elf
put_rela elf f sec = record elf { secs = set elf.secs f.sec (rela_add (fix_rela elf f) sec) }

unfoldable pub build_relocs_from : List Fix → Elf → Outcome Elf
build_relocs_from [] elf = ok elf
build_relocs_from (f ∷ fixes) elf = do
  sec ← section_at elf.secs f.sec
  build_relocs_from fixes (put_rela elf f sec)

unfoldable pub build_relocs : Enc → Outcome Enc
build_relocs e = do elf ← build_relocs_from e.fixes e.out; ok (record e { out = elf })

abbrev pub reset : Enc
reset = record { out = Object.new et_rel em_x86_64; cur = 0; labels = []; globls = []; fixes = [] }

-- The body of the loop of Enc_x86_64_BuildObject.
unfoldable pub emit_item : Item → Enc → Outcome Enc
emit_item (Item.instr op dst src) e = on_site (emit_instr op dst src) e
emit_item (Item.label name) e = record_label name e
emit_item (Item.section name type flags) e = ok (select_section name type flags e)
emit_item (Item.bytes data_) e = on_site (emit_raw data_) e
emit_item (Item.globl name) e = ok (record_globl name e)
emit_item (Item.directive text) e = ok e

unfoldable pub emit_items : List Item → Enc → Outcome Enc
emit_items [] e = ok e
emit_items (item ∷ items) e = do e' ← emit_item item e; emit_items items e'

unfoldable pub build_object : List Item → Outcome Enc
build_object items = do
  e ←
      emit_items items
        (select_section (text ".text") sht_progbits (bit_or shf_alloc shf_execinstr) reset)
  e' ← build_symbols e
  build_relocs e'
