-- ===== src/Link/Index.antt =====
-- Places of sections and symbols in an object: Link_SectionIndex, Link_SymbolIndex and Link_FindGlobal. A pointer is
-- already a place, so the loops compare places; -1 is `none`.
use ivan_cc.Prelude.{
  ℕ, ◌+◌, Bool, not, ◌&&◌, Option, none, some, List, [], ◌∷◌, ◌==◌, if◌then◌else◌,
}
use ivan_cc.Prelude.Name.{Name, name_eq}
use ivan_cc.Elf.Object.{Elf, Sec, Sym, bind_local}

unfoldable pub section_index_from : ℕ → ℕ → List Sec → Option ℕ
section_index_from target i [] = none
section_index_from target i (sec ∷ secs) =
    let rest = section_index_from target (i + 1) secs in if i == target then some i else rest

abbrev pub section_index : Elf → ℕ → Option ℕ
section_index elf target = section_index_from target 0 elf.secs

unfoldable pub symbol_index_from : ℕ → ℕ → List Sym → Option ℕ
symbol_index_from target i [] = none
symbol_index_from target i (sym ∷ syms) =
    let rest = symbol_index_from target (i + 1) syms in if i == target then some i else rest

-- NULL is the address of no symbol.
abbrev pub symbol_index : Elf → Option ℕ → Option ℕ
symbol_index elf none = none
symbol_index elf (some target) = symbol_index_from target 0 elf.syms

abbrev pub is_global : Sym → Bool
is_global sym = not (sym.bind == bind_local)

-- The loop of Link_FindGlobal, from place `i`.
unfoldable pub find_global : Name → ℕ → List Sym → Option ℕ
find_global name i [] = none
find_global name i (sym ∷ syms) =
    let rest = find_global name (i + 1) syms in
    if is_global sym && name_eq sym.name name then some i else rest
