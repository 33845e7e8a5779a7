-- ===== src/Gen/Tests.antt =====
-- Runs of the code generator on small programs, and the theorems at them.
use ivan_cc.Prelude.{
  ℕ, inr, none, some, Outcome, ok, err, [], ◌∷◌, ◌≡◌, refl, ℤ, pos, negsuc, to_word, arith, ◌-ℤ◌,
  ◌/ℤ◌, ◌+ℤ◌, ◌≤◌, ◌<◌, ◌^◌,
}
use ivan_cc.Prelude.Name.{Name, text}
use ivan_cc.Ast.{CType, BinaryKind, Info, Node, Nodes, nil, cons, Var, Func, at_size, at_align}
use ivan_cc.Asm.Types.{Reg}
use ivan_cc.Gen.State.{Gen, align_to}
use ivan_cc.Gen.Expr.{emit_expr}
use ivan_cc.Gen.Frame.{fits_frame, next_offset, assign_offsets, assign_lvar_offsets}
use ivan_cc.Gen.Program.{build_program, has_circle, is_among}
use ivan_cc.Gen.Value.{eval, eval_binary}
use ivan_cc.Gen.Correct.Expr.{emit_expr-eval}
use ivan_cc.Gen.Align.Expr.{emit_expr-aligned}
use ivan_cc.Gen.Returns.{build_program_returns}
use ivan_cc.Gen.Slots.{Slot, assign_lvar_offsets-disjoint}
use ivan_cc.X86.Machine.{Machine, exec}
use ivan_cc.X86.Stack.{Labels, track}

abbrev info : Info
info = record { type = some CType.int; line = 1 }

abbrev number : ℤ → Node
number z = Node.num info z

abbrev start : Gen
start = record {
  items = [];
  depth = pos 0;
  label_id = 0;
  curr_func = [];
  locals = [];
  strings = [];
}

abbrev machine : Machine
machine = record { regs = λ r. 0; flags = none; stack = []; seek = none }

-- `-7 / 2 + (1 < 3)`.
abbrev sum : Node
sum =
    Node.binary BinaryKind.add info
      (Node.binary BinaryKind.div info (Node.neg info (number (pos 7))) (number (pos 2)))
      (Node.binary BinaryKind.lt info (number (pos 1)) (number (pos 3)))

sum_value : eval sum ≡ some (negsuc 1)
unfolding eval eval_binary ◌-ℤ◌ ◌/ℤ◌ ◌+ℤ◌
sum_value = refl

emit_expr-eval_example :
    (s' : Gen) × (m' : Machine) × (emit_expr sum start ≡ ok s')
    × (exec s'.items machine ≡ some m')
    × (m'.regs Reg.rax ≡ to_word 64 (negsuc 1))
    × (m'.stack ≡ [])
    × (m'.seek ≡ none)
unfolding exec
emit_expr-eval_example =
    emit_expr-eval sum (negsuc 1) start machine machine (((tt, tt)), (tt, tt)) sum_value refl refl

-- `f(1, 2, 3, 4, 5, 6, 7)`: one argument goes on the stack, so a padding word does too.
abbrev seven_args : Nodes
seven_args = cons (number (pos 1)) (
    cons (number (pos 2)) (
      cons (number (pos 3)) (
        cons (number (pos 4))
          (cons (number (pos 5)) (cons (number (pos 6)) (cons (number (pos 7)) nil))))))

abbrev call_f : Node
call_f = Node.call info (text "f") seven_args

abbrev out_of : Outcome Gen → Gen
out_of (ok s) = s
out_of (err e) = start

-- `f(...) && 1`.
abbrev both : Node
both = Node.logical_and info call_f (number (pos 1))

emit_expr-aligned_example :
    ((out_of (emit_expr both start)).depth ≡ pos 0)
    × ((at : Labels) × (track at
            (out_of (emit_expr both start)).items
            (record { words = 2; frame = 2 })
          ≡ some (record { words = 2; frame = 2 })))
unfolding emit_expr
emit_expr-aligned_example =
    emit_expr-aligned both 2 2 0 start (out_of (emit_expr both start)) refl refl refl refl

abbrev local : CType → Name → Var
local t name = record { name = name; type = t; line = 1; offset = pos 0 }

-- `int main(int n) { char c; int *p; return f(...); }`.
abbrev main_func : Func
main_func = record {
  name = text "main";
  body = Node.block info (cons (Node.return_stmt info call_f) nil);
  params = 0 ∷ [];
  nparams = 1;
  locals =
      local CType.int (text "n")
      ∷ local CType.char (text "c")
      ∷ local (CType.ptr CType.int) (text "p")
      ∷ [];
  stack_size = 0;
}

abbrev placed : Var → ℤ → Var
placed v o = record v { offset = o }

-- `c` is at -5(%rbp) and `p` at -16(%rbp).
assign_lvar_offsets-disjoint_example :
    (a : ℕ) × (b : ℕ) × Slot (placed (local CType.char (text "c")) (negsuc 4)) 0 a
    × Slot (placed (local (CType.ptr CType.int) (text "p")) (negsuc 15)) a b
    × (b ≤ (assign_lvar_offsets main_func).stack_size)
    × ((assign_lvar_offsets main_func).stack_size < 2 ^ 31)
unfolding fits_frame assign_lvar_offsets assign_offsets next_offset align_to at_size at_align ◌-ℤ◌
assign_lvar_offsets-disjoint_example =
    assign_lvar_offsets-disjoint main_func 1 2 (placed (local CType.char (text "c")) (negsuc 4))
      (placed (local (CType.ptr CType.int) (text "p")) (negsuc 15)) refl (omega arith) refl refl

build_program_returns_example : (s' : Gen) × (build_program (main_func ∷ []) start ≡ ok s')
unfolding has_circle is_among fits_frame at_size at_align next_offset align_to
build_program_returns_example =
    build_program_returns (main_func ∷ []) start
      (((inr (tt, (tt, (tt, (tt, (tt, (tt, (tt, tt))))))), tt), (omega arith, tt), refl, refl), tt)
