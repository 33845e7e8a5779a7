-- ===== src/Gen/Correct/Unary.antt =====
-- The instructions of `-`, `!`, a cast and a constant, and the test before a jump.
use ivan_cc.Prelude.{none, some, ◌≡◌, refl, ℤ, pos, ◌-ℤ◌, to_word, Fits}
use ivan_cc.Ast.{CType}
use ivan_cc.Asm.Types.{Reg}
use ivan_cc.Asm.Emit
use ivan_cc.Gen.State.{Gen, emit_cast}
use ivan_cc.Gen.Expr.{emit_not}
use ivan_cc.Gen.Value.{fit, fit-eq, truth, eval_cast}
use ivan_cc.Gen.Correct.Run.{exec-run, Reaches, Lands, lands}
use ivan_cc.X86.Machine.{Machine, run_item, write, is_zero, compare_flags}
use ivan_cc.X86.Arith.{to_word-neg, low_bit, compare_flags-zero, to_word-low_8, to_word-low_32}

module _ (s : Gen) (m₀ m : Machine) (reached : Reaches s.items m₀ m) (running : m.seek ≡ none) where
  pub mov_imm-Lands : (z : ℤ) → Lands (Emit.emit_mov_imm z Reg.rax s.items) m₀ m.stack z
  unfolding run_item write
  mov_imm-Lands z = lands (exec-run _ reached running refl) refl refl running

  module _ (a : ℤ) (fa : Fits 64 a) (value : m.regs Reg.rax ≡ to_word 64 a) where
    pub neg-Lands :
        (v : ℤ) → fit (pos 0 -ℤ a) ≡ some v → Lands (Emit.emit_neg Reg.rax s.items) m₀ m.stack v
    unfolding run_item write
    neg-Lands v h =
        lands (exec-run _ reached running refl)
          (rw (value, ← (fit-eq (pos 0 -ℤ a) v h).0) (to_word-neg a fa)) refl running

    pub zero_flag : (compare_flags (m.regs Reg.rax) 0).zf ≡ is_zero a
    zero_flag = rw value (compare_flags-zero a fa)

    pub not-Lands : Lands (emit_not s).items m₀ m.stack (truth (is_zero a))
    unfolding emit_not run_item write
    not-Lands =
        lands (exec-run _ (exec-run _ (exec-run _ reached running refl) running refl) running refl)
          (rw zero_flag (low_bit _ _)) refl running

    pub cast-Lands : (t : CType) → Lands (emit_cast t s).items m₀ m.stack (eval_cast t a)
    unfolding emit_cast run_item write
    cast-Lands CType.void = lands reached value refl running
    cast-Lands CType.char =
        lands (exec-run _ reached running refl) (rw (value, to_word-low_8 a)) refl running
    cast-Lands CType.int =
        lands (exec-run _ reached running refl) (rw (value, to_word-low_32 a)) refl running
    cast-Lands (CType.ptr t) = lands reached value refl running
    cast-Lands (CType.array t n) = lands reached value refl running
