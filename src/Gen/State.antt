-- ===== src/Gen/State.antt =====
-- The state of the code generator and the functions that touch it: the static variables of src/arch/x86_64/gen.c with
-- the instruction list of asm.c and the string table of ast.c.
use ivan_cc.Prelude.{
  ℕ, ◌+◌, ◌*◌, ◌/◌, ◌-◌, List, [], ◌∷◌, some, none, Outcome, ok, err, null_pointer, ℤ, pos, ◌+ℤ◌,
  ◌-ℤ◌, get_elem?,
}
use ivan_cc.Prelude.Name.{Name, numbered}
use ivan_cc.Ast.{CType, at_size, Info, Var}
use ivan_cc.Asm.Types.{Reg, Width, width_8, width_32, Item}
use ivan_cc.Asm.Emit

-- `items` is the list from Asm_x86_64_Head; `locals` holds the variables of the current function, with their offsets;
-- `strings` is the table of interned literals.
pub record Gen : Type 0 where
  pub items : List Item
  pub depth : ℤ
  pub label_id : ℕ
  pub curr_func : Name
  pub locals : List Var
  pub strings : List (List ℕ)

abbrev pub max_reg_args : ℕ
max_reg_args = 6

abbrev pub word_size : ℕ
word_size = 8

abbrev pub stack_align : ℕ
stack_align = 16

abbrev pub arg_reg : List Reg
arg_reg = Reg.rdi ∷ Reg.rsi ∷ Reg.rdx ∷ Reg.rcx ∷ Reg.r8 ∷ Reg.r9 ∷ []

-- A call of a function of asm.c.
abbrev pub asm : (List Item → List Item) → Gen → Gen
asm emit s = record s { items = emit s.items }

-- The number that Gen_x86_64_Count returns is the state's `label_id`.
abbrev pub count : Gen → Gen
count s = record s { label_id = s.label_id + 1 }

abbrev pub emit_push : Gen → Gen
emit_push s = record s { items = Emit.emit_push Reg.rax s.items; depth = s.depth +ℤ pos 1 }

abbrev pub emit_pop : Reg → Gen → Gen
emit_pop reg s = record s { items = Emit.emit_pop reg s.items; depth = s.depth -ℤ pos 1 }

-- For values that are not negative, below the range of `int`.
unfoldable pub align_to : ℕ → ℕ → ℕ
align_to n align = (n + align - 1) / align * align

unfoldable pub type_width : CType → Width
unfolding at_size
type_width type = at_size type * 8

-- A read of `an_type`, which the code generator does through the pointer.
abbrev pub type_of : Info → Outcome CType
type_of i = elim i.type [ none ↦ err null_pointer | some t ↦ ok t ]

-- `node->an_var->av_offset`.
abbrev pub offset_of : Gen → ℕ → Outcome ℤ
offset_of s v = elim (get_elem? s.locals v) [ none ↦ err null_pointer | some x ↦ ok x.offset ]

-- Gen_x86_64_EmitLoad.
unfoldable pub emit_load : CType → Gen → Gen
unfolding type_width
emit_load (CType.array base len) s = s
emit_load CType.void s = asm (Emit.emit_mov_load Reg.rax (pos 0) Reg.rax (type_width CType.void)) s
emit_load CType.char s = asm (Emit.emit_mov_load Reg.rax (pos 0) Reg.rax (type_width CType.char)) s
emit_load CType.int s = asm (Emit.emit_mov_load Reg.rax (pos 0) Reg.rax (type_width CType.int)) s
emit_load (CType.ptr base) s =
    asm (Emit.emit_mov_load Reg.rax (pos 0) Reg.rax (type_width (CType.ptr base))) s

-- Gen_x86_64_EmitCast.
unfoldable pub emit_cast : CType → Gen → Gen
emit_cast CType.char s = asm (Emit.emit_movsx Reg.rax Reg.rax width_8) s
emit_cast CType.int s = asm (Emit.emit_movsx Reg.rax Reg.rax width_32) s
emit_cast CType.void s = s
emit_cast (CType.ptr base) s = s
emit_cast (CType.array base len) s = s

abbrev pub str_label : ℕ → Name
str_label n = numbered ".Lstr" n

abbrev pub false_label : ℕ → Name
false_label n = numbered ".L.false." n

abbrev pub true_label : ℕ → Name
true_label n = numbered ".L.true." n

abbrev pub end_label : ℕ → Name
end_label n = numbered ".L.end." n

abbrev pub else_label : ℕ → Name
else_label n = numbered ".L.else." n

abbrev pub endif_label : ℕ → Name
endif_label n = numbered ".L.endif." n

abbrev pub begin_label : ℕ → Name
begin_label n = numbered ".L.begin." n

abbrev pub endfor_label : ℕ → Name
endfor_label n = numbered ".L.endfor." n
