-- ===== src/Gen/Program.antt =====
-- Whole programs: the data section, the functions and Gen_x86_64_BuildProgram.
use ivan_cc.Prelude.{
  ℕ, ◌+◌, ◌*◌, ◌-◌, ◌++◌, List, [], ◌∷◌, Option, some, none, Outcome, ok, err, ◌>>=◌, null_pointer,
  pos, Bool, false, ◌||◌, no_end, ◌==◌, if◌then◌else◌, get_elem?, bit_or,
}
use ivan_cc.Prelude.Name.{Name, text}
use ivan_cc.Ast.{Var, Func}
use ivan_cc.Asm.Types.{Reg, width_64}
use ivan_cc.Asm.Emit
use ivan_cc.Gen.State.{Gen, asm, arg_reg, word_size, max_reg_args, type_width, str_label}
use ivan_cc.Gen.Frame.{assign_lvar_offsets, check_frame}
use ivan_cc.Gen.Stmt.{emit_stmt, return_label}

-- ELF_SHT_PROGBITS, ELF_SHF_ALLOC and ELF_SHF_EXECINSTR of include/util/elf.h.
abbrev pub sht_progbits : ℕ
sht_progbits = 1

abbrev pub shf_alloc : ℕ
shf_alloc = 0x2

abbrev pub shf_execinstr : ℕ
shf_execinstr = 0x4

-- The loop over the literals, from number `i`: a label and the bytes with the NUL behind them.
unfoldable pub emit_strings : ℕ → List (List ℕ) → Gen → Gen
emit_strings i [] s = s
emit_strings i (str ∷ strs) s =
    emit_strings (i + 1) strs
      (asm (Emit.emit_bytes (str ++ 0 ∷ [])) (asm (Emit.emit_label (str_label i)) s))

unfoldable pub emit_data_section : Gen → Gen
emit_data_section s = elim s.strings [
  | [] ↦ s
  | str ∷ strs ↦
      emit_strings 0 s.strings (asm (Emit.emit_section (text ".rodata") sht_progbits shf_alloc) s)
]

-- A parameter goes to its slot from its register, or through %rax from the caller's stack.
unfoldable pub spill_from : Option Reg → ℕ → Var → Gen → Gen
unfolding type_width
spill_from (some reg) i param s =
    asm (Emit.emit_mov_store reg Reg.rbp param.offset (type_width param.type)) s
spill_from none i param s =
    let off = 2 * word_size + (i - max_reg_args) * word_size in
    asm (Emit.emit_mov_store Reg.rax Reg.rbp param.offset (type_width param.type))
      (asm (Emit.emit_mov_load Reg.rbp (pos off) Reg.rax width_64) s)

-- The body of the loop that spills parameter number `i`: the first MAX_REG_ARGS, which are all of
-- ArgReg, come in registers.
unfoldable pub spill_param : ℕ → Var → Gen → Gen
unfolding spill_from
spill_param i param s = spill_from (get_elem? arg_reg i) i param s

unfoldable pub var_at : Gen → ℕ → Outcome Var
var_at s v = elim (get_elem? s.locals v) [ none ↦ err null_pointer | some x ↦ ok x ]

unfoldable pub spill_params : ℕ → List ℕ → Gen → Outcome Gen
spill_params i [] s = ok s
spill_params i (v ∷ params) s = do
  param ← var_at s v
  spill_params (i + 1) params (spill_param i param s)

unfoldable pub is_among : ℕ → List ℕ → Bool
is_among v [] = false
is_among v (w ∷ vs) = v == w || is_among v vs

-- Whether a parameter comes twice: its `av_param_next` then leads back to itself or to one before.
unfoldable pub has_circle : List ℕ → Bool
unfolding is_among
has_circle [] = false
has_circle (v ∷ vs) = is_among v vs || has_circle vs

-- The loop over the parameters ends only on a chain that ends.
unfoldable pub check_params : List ℕ → Outcome (Unit {0})
unfolding has_circle
check_params params = if has_circle params then err no_end else ok tt

unfoldable pub emit_prologue : ℕ → Gen → Gen
emit_prologue stack_size s =
    let s' = asm (Emit.emit_mov_rr Reg.rsp Reg.rbp) (asm (Emit.emit_push Reg.rbp) s) in
    if stack_size == 0 then s' else asm (Emit.emit_sub_imm (pos stack_size) Reg.rsp) s'

unfoldable pub emit_epilogue : Name → Gen → Gen
emit_epilogue name s = asm Emit.emit_ret (
    asm (Emit.emit_pop Reg.rbp) (
      asm (Emit.emit_mov_rr Reg.rbp Reg.rsp)
        (asm (Emit.emit_label (return_label name)) (asm (Emit.emit_mov_imm (pos 0) Reg.rax) s))))

-- The body of the loop of Gen_x86_64_EmitFunctions.
unfoldable pub emit_function : Func → Gen → Outcome Gen
emit_function func s = do
  let f = assign_lvar_offsets func
  let s₁ = record s { curr_func = f.name; locals = f.locals }
  let s₂ = asm (Emit.emit_label f.name) (asm (Emit.emit_globl f.name) s₁)
  _ ← check_frame func.locals
  _ ← check_params f.params
  s₃ ← spill_params 0 f.params (emit_prologue f.stack_size s₂)
  s₄ ← emit_stmt f.body s₃
  ok (emit_epilogue f.name s₄)

unfoldable pub emit_functions : List Func → Gen → Outcome Gen
emit_functions [] s = ok s
emit_functions (func ∷ prog) s = do s' ← emit_function func s; emit_functions prog s'

unfoldable pub emit_text_section : List Func → Gen → Outcome Gen
emit_text_section prog s =
    emit_functions prog
      (asm (Emit.emit_section (text ".text") sht_progbits (bit_or shf_alloc shf_execinstr)) s)

-- What Gen_x86_64_BuildProgram resets.
unfoldable pub reset : Gen → Gen
reset s = record s { items = Emit.reset; depth = pos 0; label_id = 0 }

unfoldable pub build_program : List Func → Gen → Outcome Gen
build_program prog s = do
  let s₁ = asm (Emit.emit_directive (text ".file \"cc\"")) (reset s)
  s₂ ← emit_text_section prog (emit_data_section s₁)
  ok (asm (Emit.emit_directive (text ".section .note.GNU-stack,\"\",@progbits")) s₂)
