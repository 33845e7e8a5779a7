-- ===== src/Rel/Apply.antt =====
-- One relocation and all relocations: Rel_x86_64_SymbolAddr, Rel_x86_64_One and Rel_x86_64_Apply.
use ivan_cc.Prelude.{
  ℕ, ◌+◌, ◌%◌, ◌^◌, ◌||◌, Option, none, some, List, [], ◌∷◌, ℤ, pos, ◌+ℤ◌, ◌-ℤ◌, to_word, get_elem?,
  set, Outcome, ok, err, ◌>>=◌, null_pointer, unsupported_relocation, ◌==◌, if◌then◌else◌,
}
use ivan_cc.Elf.Object.{Elf, Sec, Sym, Rela, section_at}
use ivan_cc.Rel.Patch.{patch_le}

abbrev pub r_x86_64_64 : ℕ
r_x86_64_64 = 1

abbrev pub r_x86_64_pc32 : ℕ
r_x86_64_pc32 = 2

abbrev pub r_x86_64_plt32 : ℕ
r_x86_64_plt32 = 4

abbrev pub r_x86_64_32 : ℕ
r_x86_64_32 = 10

abbrev pub r_x86_64_32s : ℕ
r_x86_64_32s = 11

-- The symbol at a place of the table; NULL has none.
abbrev pub symbol_at : List Sym → Option ℕ → Outcome Sym
symbol_at syms none = err null_pointer
symbol_at syms (some i) = elim (get_elem? syms i) [ none ↦ err null_pointer | some sym ↦ ok sym ]

unfoldable pub symbol_addr : List Sec → Sym → Outcome ℕ
symbol_addr secs sym = elim sym.sec [
  | none ↦ ok sym.value
  | some j ↦ section_at secs j >>= λ sec. ok ((sec.addr + sym.value) % 2 ^ 64)
]

-- The patched bytes, from S, A and P; the arithmetic is that of uint64_t.
unfoldable pub patch_by : ℕ → ℕ → ℕ → ℤ → ℕ → List ℕ → Outcome (List ℕ)
patch_by type offset S A P bytes =
    if type == r_x86_64_pc32 || type == r_x86_64_plt32
    then patch_le offset (to_word 64 (pos S +ℤ A -ℤ pos P) % 2 ^ 32) 4 bytes
    else if type == r_x86_64_32 || type == r_x86_64_32s
    then patch_le offset (to_word 64 (pos S +ℤ A) % 2 ^ 32) 4 bytes
    else if type == r_x86_64_64
    then patch_le offset (to_word 64 (pos S +ℤ A)) 8 bytes
    else err (unsupported_relocation type)

-- The relocation `rel` of the section at place `k`.
unfoldable pub rel_one : ℕ → Rela → Elf → Outcome Elf
rel_one k rel elf = do
  sec ← section_at elf.secs k
  sym ← symbol_at elf.syms rel.sym
  S ← symbol_addr elf.secs sym
  bytes ← patch_by rel.type rel.offset S rel.addend ((sec.addr + rel.offset) % 2 ^ 64) sec.bytes
  ok (record elf { secs = set elf.secs k (record sec { bytes = bytes }) })

unfoldable pub apply_relas : ℕ → List Rela → Elf → Outcome Elf
apply_relas k [] elf = ok elf
apply_relas k (rel ∷ relas) elf = do elf' ← rel_one k rel elf; apply_relas k relas elf'

-- The loop over the sections from place `k`; patching changes no relocation.
unfoldable pub apply_secs : ℕ → List Sec → Elf → Outcome Elf
apply_secs k [] elf = ok elf
apply_secs k (sec ∷ secs) elf = do elf' ← apply_relas k sec.relas elf; apply_secs (k + 1) secs elf'

unfoldable pub apply : Elf → Outcome Elf
apply elf = apply_secs 0 elf.secs elf
