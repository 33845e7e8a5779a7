-- ===== src/Sem/Arith.antt =====
-- The typing of + and -: Sem_Arith of src/ast/sem.c.
use ivan_cc.Prelude.{
  ℕ, Bool, true, false, ◌&&◌, not, none, some, Outcome, ok, err, ◌>>=◌, null_pointer, add_pointers,
  subtract_pointer, if◌then◌else◌, pos,
}
use ivan_cc.Ast.{CType, Info, Node, BinaryKind, at_size, info_of}
use ivan_cc.Sem.Types.{is_pointer, decay, base_of, node_type, typed, int_at, scale_by}

-- `an_line` of a node.
unfoldable pub line_of : Node → Outcome ℕ
unfolding info_of
line_of n = elim (info_of n) [ none ↦ err null_pointer | some i ↦ ok i.line ]

-- Whether the node's kind is SUB; Sem_Arith is called on ADD and SUB alone.
abbrev pub is_sub : BinaryKind → Bool
is_sub BinaryKind.sub = true
is_sub _ = false

-- Two pointers: the difference in bytes over the size of an element.
unfoldable pub pointer_difference : BinaryKind → Info → Node → Node → CType → Outcome Node
pointer_difference k i l r lt =
    if is_sub k
    then (base_of lt >>= λ base. ok (
        Node.binary BinaryKind.div (typed i CType.int)
          (Node.binary BinaryKind.sub (int_at i.line) l r)
          (Node.num (int_at i.line) (pos (at_size base)))))
    else err (add_pointers i.line)

-- A pointer on the right: only a sum, with the left operand scaled.
unfoldable pub pointer_right : BinaryKind → Info → Node → Node → CType → Outcome Node
pointer_right k i l r rt =
    if is_sub k
    then err (subtract_pointer i.line)
    else (line_of l >>= λ line. base_of rt >>= λ base.
        ok (Node.binary k (typed i (decay rt)) (scale_by line l (at_size base)) r))

-- A pointer on the left: the right operand is scaled.
unfoldable pub pointer_left : BinaryKind → Info → Node → Node → CType → Outcome Node
pointer_left k i l r lt = line_of r >>= λ line. base_of lt >>= λ base.
    ok (Node.binary k (typed i (decay lt)) l (scale_by line r (at_size base)))

-- The rest of Sem_Arith, on the operands' types.
unfoldable pub arith_by : BinaryKind → Info → Node → Node → CType → CType → Outcome Node
unfolding is_pointer
arith_by k i l r lt rt =
    if not (is_pointer lt) && not (is_pointer rt)
    then ok (Node.binary k (typed i CType.int) l r)
    else if is_pointer lt && is_pointer rt
    then pointer_difference k i l r lt
    else if is_pointer rt
    then pointer_right k i l r rt
    else pointer_left k i l r lt

unfoldable pub arith : BinaryKind → Info → Node → Node → Outcome Node
arith k i l r = do lt ← node_type l; rt ← node_type r; arith_by k i l r lt rt
