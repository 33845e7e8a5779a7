-- ===== src/Sem/Tests.antt =====
-- Runs of the analysis on small programs, and the theorem at one.
use ivan_cc.Prelude.{ℕ, none, List, [], ◌∷◌, ◌≡◌, refl, ℤ, pos, ok, All, inr}
use native.Mathlib.Omega
use ivan_cc.Prelude.Name.{text}
use ivan_cc.Ast.{CType, BinaryKind, Info, Node, nil, cons, Var, Func, at_size, at_align, info_of}
use ivan_cc.Gen.State.{Gen, align_to}
use ivan_cc.Gen.Frame.{fits_frame, next_offset}
use ivan_cc.Gen.Program.{build_program, has_circle}
use ivan_cc.Gen.Returns.{IsFunc}
use ivan_cc.Sem.Types.{
  typed, int_at, node_type, base_of, decay, check_call, count_nodes, find_func, is_lvalue,
  is_pointer, scale_by,
}
use ivan_cc.Sem.Walk.{
  analyze, analyze_from, sem_below, sem_own, var_type, own_deref, deref_by, deref_base, own_addr,
}
use ivan_cc.Sem.Arith.{arith, arith_by, pointer_left, line_of}
use ivan_cc.Sem.Checked.{analyze-build_program}

-- A node's fields before the analysis.
abbrev at_line : ℕ → Info
at_line line = record { type = none; line = line }

abbrev var_of : CType → Var
var_of t = record { name = text "p"; type = t; line = 1; offset = pos 0 }

abbrev func_of : List Var → Node → Func
func_of locals body = record {
  name = text "g";
  body = body;
  params = [];
  nparams = 0;
  locals = locals;
  stack_size = 0;
}

-- `int g() { int a[3]; return *(&a[0] + sizeof(a)) - g(); }`, on one line.
abbrev array_func : Node → Func
array_func body =
    func_of (var_of (CType.array CType.int 3) ∷ [])
      (Node.block (at_line 1) (cons (Node.return_stmt (at_line 1) body) nil))

abbrev first : Info → Info → Info → Info → Node → Node
first i j k l n = Node.addr i (Node.deref j (Node.binary BinaryKind.add k (Node.var l 0) n))

abbrev written : Node
written =
    Node.binary BinaryKind.sub (at_line 1)
      (Node.deref (at_line 1) (
        Node.binary BinaryKind.add (at_line 1)
          (first (at_line 1) (at_line 1) (at_line 1) (at_line 1) (Node.num (at_line 1) (pos 0)))
          (Node.sizeof (at_line 1) (Node.var (at_line 1) 0))))
      (Node.call (at_line 1) (text "g") nil)

abbrev number : ℤ → Node
number z = Node.num (int_at 1) z

abbrev ptr_at : Info
ptr_at = typed (at_line 1) (CType.ptr CType.int)

-- The tree that the analysis makes: `sizeof(a)` is 12, and both right operands are scaled by 4.
abbrev checked : Node
checked =
    Node.binary BinaryKind.sub (int_at 1)
      (Node.deref (int_at 1) (
        Node.binary BinaryKind.add ptr_at
          (first ptr_at (int_at 1) ptr_at (typed (at_line 1) (CType.array CType.int 3))
            (Node.binary BinaryKind.mul (int_at 1) (number (pos 0)) (number (pos 4))))
          (Node.binary BinaryKind.mul (int_at 1) (number (pos 12)) (number (pos 4)))))
      (Node.call (int_at 1) (text "g") nil)

analyze_ok : analyze [] (array_func written ∷ []) ≡ ok (array_func checked ∷ [])
unfolding analyze analyze_from sem_below sem_own var_type arith node_type arith_by pointer_left
    line_of base_of own_deref deref_by decay deref_base own_addr check_call at_size info_of
    count_nodes find_func is_lvalue is_pointer scale_by
analyze_ok = refl

abbrev start : Gen
start = record {
  items = [];
  depth = pos 0;
  label_id = 0;
  curr_func = [];
  locals = [];
  strings = [];
}

analyze-build_program_example :
    All IsFunc (array_func checked ∷ [])
    × ((s' : Gen) × (build_program (array_func checked ∷ []) start ≡ ok s'))
unfolding has_circle fits_frame at_size at_align next_offset align_to
analyze-build_program_example =
    analyze-build_program [] (array_func written ∷ []) (array_func checked ∷ []) start
      (((((inr (((omega Omega.arith, tt), omega Omega.arith), tt)), tt), tt, refl, refl)), tt)
      analyze_ok
