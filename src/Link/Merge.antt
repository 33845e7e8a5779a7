-- ===== src/Link/Merge.antt =====
-- One input object merged into the output: Link_Merge, a function for each phase, and Link_MergeFiles.
use ivan_cc.Prelude.{
  ℕ, ◌+◌, ◌%◌, ◌^◌, Option, none, some, List, [], ◌∷◌, ◌==◌, ltb, if◌then◌else◌, length, get_elem?,
  set, Outcome, ok, err, ◌>>=◌, null_pointer, multiple_definition, unreadable,
}
use ivan_cc.Prelude.Name.{Name}
use ivan_cc.Elf.Object.{
  Elf, Sec, Sym, Rela, buf_data, section_get, section_at, symbol_add, rela_add, bind_local,
}
use ivan_cc.Elf.Buffer.{buf_align}
use ivan_cc.Link.Index.{section_index, symbol_index, find_global}
use ivan_cc.Rel.Apply.{symbol_at}

-- `secmap[i]` and `secbase[i]`.
pub record Base : Type 0 where
  pub sec : ℕ
  pub at : ℕ

-- The output section with the input section behind it, and where that begins.
unfoldable pub with_section : Sec → Sec → Sec
with_section sec dst = record dst {
  addralign = if ltb dst.addralign sec.addralign then sec.addralign else dst.addralign;
  bytes = buf_data sec.bytes (buf_align sec.addralign dst.bytes);
}

unfoldable pub merge_section : Sec → Elf → Outcome (Base × Elf)
merge_section sec out = do
  let (k, out') = section_get sec.name sec.type sec.flags out
  dst ← section_at out'.secs k
  ok (
    record { sec = k; at = length (buf_align sec.addralign dst.bytes) },
    record out' { secs = set out'.secs k (with_section sec dst) },
  )

-- The first phase.
unfoldable pub merge_sections : List Sec → Elf → Outcome (List Base × Elf)
merge_sections [] out = ok ([], out)
merge_sections (sec ∷ secs) out = do
  (b, out₁) ← merge_section sec out
  (bs, out₂) ← merge_sections secs out₁
  ok (b ∷ bs, out₂)

-- `secmap[j]` and `secbase[j]`.
abbrev pub base_at : List Base → ℕ → Outcome Base
base_at bases j = elim (get_elem? bases j) [ none ↦ err null_pointer | some b ↦ ok b ]

-- `dsec` and `value` of an input symbol, from its section and value.
unfoldable pub place_of : Elf → List Base → ℕ → Option ℕ → Outcome (Option ℕ × ℕ)
place_of in_ bases value none = ok (none, 0)
place_of in_ bases value (some target) = elim (section_index in_ target) [
  | none ↦ err null_pointer
  | some j ↦ base_at bases j >>= λ b. ok (some b.sec, (b.at + value) % 2 ^ 64)
]

abbrev pub new_place : Elf → List Base → Sym → Outcome (Option ℕ × ℕ)
new_place in_ bases sym = place_of in_ bases sym.value sym.sec

abbrev pub copied : Sym → Option ℕ → ℕ → Sym
copied sym dsec value = record sym { sec = dsec; value = value }

-- The place of the symbol that Elf_SymbolAdd appends, and the output.
unfoldable pub add_copy : Sym → Elf → Outcome (ℕ × Elf)
unfolding symbol_add
add_copy sym out = ok (length out.syms, symbol_add sym out)

-- A definition of the global at place `e`.
unfoldable pub define_global : ℕ → Sym → Sym → ℕ → ℕ → Elf → Outcome (ℕ × Elf)
define_global e existing sym dsec value out = elim existing.sec [
  | some _ ↦ err (multiple_definition sym.name)
  | none ↦ ok (
    e,
    record out {
      syms = set out.syms e (record existing { sec = some dsec; value = value; type = sym.type });
    },
  )
]

unfoldable pub unify : ℕ → Sym → Option ℕ → ℕ → Elf → Outcome (ℕ × Elf)
unify e sym none value out = ok (e, out)
unify e sym (some dsec) value out =
    symbol_at out.syms (some e) >>= λ existing. define_global e existing sym dsec value out

-- A global goes to the global of its name, if there is one.
unfoldable pub merge_global : Sym → Option ℕ → ℕ → Elf → Outcome (ℕ × Elf)
merge_global sym dsec value out = elim (find_global sym.name 0 out.syms) [
  | none ↦ add_copy (copied sym dsec value) out
  | some e ↦ unify e sym dsec value out
]

unfoldable pub merge_by : Sym → Option ℕ → ℕ → Elf → Outcome (ℕ × Elf)
merge_by sym dsec value out =
    if sym.bind == bind_local
    then add_copy (copied sym dsec value) out
    else merge_global sym dsec value out

-- `symmap[i]`, and the output.
unfoldable pub merge_symbol : Elf → List Base → Sym → Elf → Outcome (ℕ × Elf)
merge_symbol in_ bases sym out = do
  (dsec, value) ← new_place in_ bases sym
  merge_by sym dsec value out

-- The second phase.
unfoldable pub merge_symbols : Elf → List Base → List Sym → Elf → Outcome (List ℕ × Elf)
merge_symbols in_ bases [] out = ok ([], out)
merge_symbols in_ bases (sym ∷ syms) out = do
  (p, out₁) ← merge_symbol in_ bases sym out
  (ps, out₂) ← merge_symbols in_ bases syms out₁
  ok (p ∷ ps, out₂)

-- The relocation of the output, with the symbol `symmap[k]`.
abbrev pub rebased : Base → Rela → ℕ → Rela
rebased b rel p = record rel { offset = (b.at + rel.offset) % 2 ^ 64; sym = some p }

abbrev pub put_rela : Base → Rela → List Sec → Outcome (List Sec)
put_rela b rel secs = section_at secs b.sec >>= λ dst. ok (set secs b.sec (rela_add rel dst))

unfoldable pub merge_rela : Elf → List ℕ → Base → Rela → List Sec → Outcome (List Sec)
merge_rela in_ symmap b rel secs = elim (symbol_index in_ rel.sym) [
  | none ↦ ok secs
  | some k ↦ elim (get_elem? symmap k) [
    | none ↦ err null_pointer
    | some p ↦ put_rela b (rebased b rel p) secs
  ]
]

unfoldable pub merge_relas : Elf → List ℕ → Base → List Rela → List Sec → Outcome (List Sec)
merge_relas in_ symmap b [] secs = ok secs
merge_relas in_ symmap b (rel ∷ relas) secs = do
  secs' ← merge_rela in_ symmap b rel secs
  merge_relas in_ symmap b relas secs'

-- The third phase, over the input sections from place `i`.
unfoldable pub merge_all_relas :
    Elf → List Base → List ℕ → ℕ → List Sec → List Sec → Outcome (List Sec)
merge_all_relas in_ bases symmap i [] secs = ok secs
merge_all_relas in_ bases symmap i (sec ∷ rest) secs = do
  b ← base_at bases i
  secs' ← merge_relas in_ symmap b sec.relas secs
  merge_all_relas in_ bases symmap (i + 1) rest secs'

unfoldable pub merge : Elf → Elf → Outcome Elf
merge out in_ = do
  (bases, out₁) ← merge_sections in_.secs out
  (symmap, out₂) ← merge_symbols in_ bases in_.syms out₁
  secs ← merge_all_relas in_ bases symmap 0 in_.secs out₂.secs
  ok (record out₂ { secs = secs })

-- Elf_Read of each path is a parameter.
unfoldable pub merge_files : (Name → Option Elf) → Elf → List Name → Outcome Elf
merge_files read out [] = ok out
merge_files read out (path ∷ paths) = elim (read path) [
  | none ↦ err (unreadable path)
  | some in_ ↦ merge out in_ >>= λ out'. merge_files read out' paths
]
