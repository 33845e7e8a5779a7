-- ===== src/Gen/Frame.antt =====
-- Stack frames: Gen_x86_64_AssignLvarOffsets.
use ivan_cc.Prelude.{
  ℕ, ◌+◌, ◌^◌, ltb, Bool, ◌&&◌, if◌then◌else◌, List, [], ◌∷◌, pos, ◌-ℤ◌, Outcome, ok, err,
  int_overflow,
}
use ivan_cc.Ast.{Var, Func, at_size, at_align}
use ivan_cc.Gen.State.{align_to, stack_align}

-- The running `offset` after a variable.
unfoldable pub next_offset : ℕ → Var → ℕ
unfolding align_to at_size at_align
next_offset offset var = align_to (offset + at_size var.type) (at_align var.type)

-- The loop over the locals: the variables with their offsets.
unfoldable pub assign_offsets : ℕ → List Var → List Var
assign_offsets offset [] = []
assign_offsets offset (var ∷ vars) =
    let next = next_offset offset var in
    record var { offset = pos 0 -ℤ pos next } ∷ assign_offsets next vars

-- The running `offset` after the loop.
unfoldable pub frame_end : ℕ → List Var → ℕ
frame_end offset [] = offset
frame_end offset (var ∷ vars) = frame_end (next_offset offset var) vars

-- Whether the sizes and the sums of the loop, and that of the rounding behind it, are ints.
unfoldable pub fits_frame : ℕ → List Var → Bool
unfolding next_offset at_size at_align
fits_frame offset [] = ltb (offset + stack_align) (2 ^ 31)
fits_frame offset (var ∷ vars) =
    ltb (at_size var.type) (2 ^ 31)
    && (ltb (offset + at_size var.type + at_align var.type) (2 ^ 31)
        && fits_frame (next_offset offset var) vars)

-- The arithmetic of the loop is that of int: without a meaning in C where it overflows.
unfoldable pub check_frame : List Var → Outcome (Unit {0})
unfolding fits_frame
check_frame vars = if fits_frame 0 vars then ok tt else err int_overflow

unfoldable pub assign_lvar_offsets : Func → Func
assign_lvar_offsets func = record func {
  locals = assign_offsets 0 func.locals;
  stack_size = align_to (frame_end 0 func.locals) stack_align;
}
