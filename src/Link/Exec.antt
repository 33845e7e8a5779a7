-- ===== src/Link/Exec.antt =====
-- The executable: Link_CheckDefined, Link_Exec and Link_Run.
use ivan_cc.Prelude.{
  ℕ, Option, none, some, List, [], ◌∷◌, if◌then◌else◌, Outcome, ok, err, ◌>>=◌, Error,
  undefined_symbol_of, undefined_entry,
}
use ivan_cc.Prelude.Name.{Name, text}
use ivan_cc.Elf.Object.{Elf, Sec, Sym, Rela, symbol_find, et_rel, em_x86_64, new}
use ivan_cc.Rel.Apply.{apply, symbol_at, symbol_addr}
use ivan_cc.Link.Place.{Options, place_sections}
use ivan_cc.Link.Merge.{merge_files}

abbrev pub et_exec : ℕ
et_exec = 2

-- A symbol with no section is not defined.
abbrev pub defined : Sym → Error → Outcome (Unit {0})
defined sym e = elim sym.sec [ none ↦ err e | some _ ↦ ok tt ]

unfoldable pub check_rela : List Sym → Rela → Outcome (Unit {0})
check_rela syms rel = elim rel.sym [
  | none ↦ err (undefined_symbol_of (text "?"))
  | some i ↦ symbol_at syms (some i) >>= λ sym. defined sym (undefined_symbol_of sym.name)
]

unfoldable pub check_relas : List Sym → List Rela → Outcome (Unit {0})
check_relas syms [] = ok tt
check_relas syms (rel ∷ relas) = check_rela syms rel >>= λ _. check_relas syms relas

unfoldable pub check_secs : List Sym → List Sec → Outcome (Unit {0})
check_secs syms [] = ok tt
check_secs syms (sec ∷ secs) = check_relas syms sec.relas >>= λ _. check_secs syms secs

abbrev pub check_defined : Elf → Outcome (Unit {0})
check_defined elf = check_secs elf.syms elf.secs

abbrev pub entry_name : Options → Name
entry_name opts = elim opts.entry [ none ↦ text "_start" | some name ↦ name ]

-- The entry symbol, which has a section.
unfoldable pub entry_symbol : Elf → Name → Outcome Sym
entry_symbol elf name = elim (symbol_find elf name) [
  | none ↦ err (undefined_entry name)
  | some i ↦
      symbol_at elf.syms (some i) >>= λ sym. defined sym (undefined_entry name) >>= λ _. ok sym
]

unfoldable pub link_exec : Options → Elf → Outcome Elf
link_exec opts elf = do
  let placed = place_sections opts elf
  _ ← check_defined placed
  sym ← entry_symbol placed (entry_name opts)
  entry ← symbol_addr placed.secs sym
  out ← apply (record placed { entry = entry })
  ok (record out { type = et_exec })

unfoldable pub run : (Name → Option Elf) → List Name → Options → Outcome Elf
run read paths opts = do
  out ← merge_files read (new et_rel em_x86_64) paths
  if opts.relocatable then ok out else link_exec opts out
