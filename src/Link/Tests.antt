-- ===== src/Link/Tests.antt =====
-- A link of two objects, and the theorems at it.
use mathlib.Core.Path.{subst}
use mathlib.Core.Option.{some-injective}
use ivan_cc.Prelude.{
  ◌+ℤ◌, ◌-ℤ◌, ℕ, false, Option, none, some, List, [], ◌∷◌, ◌≡◌, refl, negsuc, Outcome, ok, err,
  Ends, inl, inr, arith, if◌then◌else◌, map, Bool-cases,
}
use ivan_cc.Prelude.Name.{Name, name_eq, text}
use ivan_cc.Elf.Object.{
  section_get, find_sec, find_sym, symbol_add, Elf, Sec, Sym, Rela, empty_section, Buf,
}
use ivan_cc.Elf.Buffer.{pad_fuel, buf_align, buf_align-Padded, Padded}
use ivan_cc.Rel.Patch.{patch_le, patch_from}
use ivan_cc.Rel.Apply.{
  apply, apply_relas, apply_secs, patch_by, rel_one, symbol_addr, r_x86_64_plt32,
}
use ivan_cc.Link.Index.{section_index_from, find_global, symbol_index_from}
use ivan_cc.Link.Whole.{IsObject}
use ivan_cc.Link.Symbols.{IsMultiple}
use ivan_cc.Link.Merge.{
  merge_files, merge_sections, merge_section, merge_symbols, merge_symbol, place_of, merge_by,
  merge_global, add_copy, merge_all_relas, merge_relas, define_global, merge_rela, unify,
  with_section, merge,
}
use ivan_cc.Link.Joined.{Joined, merge-Joined}
use ivan_cc.Link.Place.{
  load_addr, next_page, place_from, place_section, placed_addr, Options, place_sections,
}
use ivan_cc.Link.Apart.{Before, place_sections-Before}
use ivan_cc.Link.Exec.{check_rela, check_relas, check_secs, entry_symbol, link_exec, run}
use ivan_cc.Link.Runs.{IsLinkError, IsLinked, run-Ends}

abbrev code : List ℕ → List Rela → Sec
code bytes relas = record (empty_section (text ".text") 1 6) { bytes = bytes; relas = relas }

abbrev symbol : Name → Option ℕ → Sym
symbol name sec = record { name = name; sec = sec; value = 0; bind = 1; type = 0 }

abbrev object : List ℕ → List Rela → List Sym → Elf
object bytes relas syms = record {
  type = 1;
  machine = 62;
  entry = 0;
  secs = code bytes relas ∷ [];
  syms = syms;
}

-- `_start: call f`, where `f` is in another file.
abbrev caller : Elf
caller =
    object (0xe8 ∷ 0 ∷ 0 ∷ 0 ∷ 0 ∷ [])
      (record { offset = 1; sym = some 1; type = r_x86_64_plt32; addend = negsuc 3 } ∷ [])
      (symbol (text "_start") (some 0) ∷ symbol (text "f") none ∷ [])

-- `f: ret`.
abbrev callee : Elf
callee = object (0xc3 ∷ []) [] (symbol (text "f") (some 0) ∷ [])

caller-IsObject : IsObject caller
caller-IsObject = record {
  relas = (
    (record { supported = refl; inside = omega arith; target = (1, refl, omega arith) }, tt),
    tt,
  );
  symbols = (omega arith, (tt, tt));
}

callee-IsObject : IsObject callee
callee-IsObject = record { relas = (tt, tt); symbols = (omega arith, tt) }

abbrev files : Name → Option Elf
files path = if name_eq path (text "a.o") then some caller else some callee

files-IsObject : (path : Name) (in_ : Elf) → files path ≡ some in_ → IsObject in_
files-IsObject path in_ h = elim (Bool-cases (name_eq path (text "a.o"))) [
  | inl e ↦ subst IsObject (some-injective _ _ (rw e at h)) caller-IsObject
  | inr e ↦ subst IsObject (some-injective _ _ (rw e at h)) callee-IsObject
]

abbrev plain : Options
plain = record { entry = none; relocatable = false; places = [] }

abbrev both : List Name
both = text "a.o" ∷ text "b.o" ∷ []

-- The bytes, the load addresses and the entry of a linked program.
abbrev shown : Outcome Elf → List Buf × List ℕ × ℕ
shown (ok out) = (map (λ s. s.bytes) out.secs, map (λ s. s.addr) out.secs, out.entry)
shown (err e) = ([], [], 0)

-- The call goes to the byte behind it.
linked :
    shown (run files both plain)
    ≡ ((0xe8 ∷ 0 ∷ 0 ∷ 0 ∷ 0 ∷ 0xc3 ∷ []) ∷ [], 0x401000 ∷ [], 0x401000)
unfolding run merge buf_align place_sections merge_files merge_sections merge_section merge_symbols
    merge_symbol place_of merge_by merge_global add_copy merge_all_relas merge_relas define_global
    merge_rela unify with_section section_get find_sec find_sym symbol_add pad_fuel
    section_index_from find_global symbol_index_from check_rela check_relas check_secs entry_symbol
    link_exec load_addr next_page place_from place_section placed_addr ◌+ℤ◌ ◌-ℤ◌ apply apply_relas
    apply_secs patch_by rel_one symbol_addr patch_le patch_from
linked = refl

run-Ends_example : Ends IsLinkError (IsLinked plain) (run files both plain)
run-Ends_example = run-Ends files both plain files-IsObject

merge-Joined_example :
    Ends IsMultiple (λ out. IsObject out × Joined caller callee out) (merge caller callee)
merge-Joined_example = merge-Joined caller callee caller-IsObject callee-IsObject

-- A section behind one that is placed at 0x500000.
abbrev two_sections : Elf
two_sections = record caller {
  secs = code (1 ∷ 2 ∷ []) [] ∷ record (empty_section (text ".data") 1 2) { bytes = 3 ∷ [] } ∷ [];
}

abbrev at_text : Options
at_text = record plain { places = record { name = text ".text"; addr = 0x500000 } ∷ [] }

abbrev placed : ℕ → Sec → Sec
placed addr sec = record sec { addr = addr }

place_sections-Before_example :
    Before
      (placed 0x500000 (code (1 ∷ 2 ∷ []) []))
      (placed 0x501000 (record (empty_section (text ".data") 1 2) { bytes = 3 ∷ [] }))
unfolding place_sections place_from place_section load_addr placed_addr next_page
place_sections-Before_example =
    place_sections-Before at_text two_sections 0x500000 0 1 (placed 0x500000 (code (1 ∷ 2 ∷ []) []))
      (placed 0x501000 (record (empty_section (text ".data") 1 2) { bytes = 3 ∷ [] }))
      (omega arith, tt) (omega arith) (omega arith) (omega arith) refl refl refl refl refl

buf_align-Padded_example : Padded 4 4 (1 ∷ 2 ∷ 3 ∷ []) (buf_align 4 (1 ∷ 2 ∷ 3 ∷ []))
buf_align-Padded_example = buf_align-Padded 4 (1 ∷ 2 ∷ 3 ∷ []) (omega arith)
