-- ===== src/Gen/Correct/Binary.antt =====
-- The instructions of each operator, run on the two operands.
use ivan_cc.Prelude.{
  none, some, ◌≡◌, refl, ap, ℤ, ◌+ℤ◌, ◌-ℤ◌, ◌*ℤ◌, ◌/ℤ◌, ◌%ℤ◌, to_word, signed-to_word_64, Fits,
}
use ivan_cc.Prelude.Name.{Name}
use ivan_cc.Ast.{BinaryKind}
use ivan_cc.Asm.Types.{Reg}
use ivan_cc.Gen.State.{Gen}
use ivan_cc.Gen.Expr.{emit_binary}
use ivan_cc.Gen.Value.{eval_binary, fit-eq, unless_some, when_some}
use ivan_cc.Gen.Correct.Run.{exec-run, exec-skip, Reaches, Lands, lands}
use ivan_cc.X86.Machine.{Machine, run_item, skip_item, write, is_zero, in_range}
use ivan_cc.X86.Arith.{
  to_word-+, to_word--, to_word-*, signed_pair-cqo, idiv_lem, low_bit, compare_flags-eq,
  compare_flags-lt, compare_flags-le,
}
use mathlib.Core.Option.{some-injective}

module _ (s : Gen) (m₀ m : Machine) (a b v : ℤ) (fa : Fits 64 a) (fb : Fits 64 b)
    (reached : Reaches s.items m₀ m) (running : m.seek ≡ none)
    (left : m.regs Reg.rax ≡ to_word 64 a) (right : m.regs Reg.rdi ≡ to_word 64 b) where
  add-Lands :
      eval_binary BinaryKind.add a b ≡ some v
      → Lands (emit_binary BinaryKind.add s).items m₀ m.stack v
  unfolding eval_binary emit_binary run_item write
  add-Lands h =
      lands (exec-run _ reached running refl)
        (rw (left, right, ← (fit-eq (a +ℤ b) v h).0) (to_word-+ a b fa fb)) refl running

  sub-Lands :
      eval_binary BinaryKind.sub a b ≡ some v
      → Lands (emit_binary BinaryKind.sub s).items m₀ m.stack v
  unfolding eval_binary emit_binary run_item write
  sub-Lands h =
      lands (exec-run _ reached running refl)
        (rw (left, right, ← (fit-eq (a -ℤ b) v h).0) (to_word-- a b fa fb)) refl running

  mul-Lands :
      eval_binary BinaryKind.mul a b ≡ some v
      → Lands (emit_binary BinaryKind.mul s).items m₀ m.stack v
  unfolding eval_binary emit_binary run_item write
  mul-Lands h =
      lands (exec-run _ reached running refl)
        (rw (left, right, ← (fit-eq (a *ℤ b) v h).0) (to_word-* a b fa fb)) refl running

  div-Lands :
      eval_binary BinaryKind.div a b ≡ some v
      → Lands (emit_binary BinaryKind.div s).items m₀ m.stack v
  unfolding eval_binary emit_binary run_item write
  div-Lands h =
      let (nz, h') = unless_some (is_zero b) h in
      let (r, e) = when_some (in_range (a /ℤ b)) h' in
      lands
        (exec-run _ (exec-run _ reached running refl) running (
          idiv_lem _ _ a b (rw left (signed_pair-cqo a fa)) (rw right (signed-to_word_64 b fb)) nz
            r))
        (ap (to_word 64) (some-injective _ _ e)) refl running

  modulo-Lands :
      eval_binary BinaryKind.modulo a b ≡ some v
      → Lands (emit_binary BinaryKind.modulo s).items m₀ m.stack v
  unfolding eval_binary emit_binary run_item write
  modulo-Lands h =
      let (nz, h') = unless_some (is_zero b) h in
      let (r, e) = when_some (in_range (a /ℤ b)) h' in
      lands
        (exec-run _
          (exec-run _ (exec-run _ reached running refl) running (
            idiv_lem _ _ a b (rw left (signed_pair-cqo a fa)) (rw right (signed-to_word_64 b fb)) nz
              r))
          running refl)
        (ap (to_word 64) (fit-eq (a %ℤ b) v e).0) refl running

  eq-Lands :
      eval_binary BinaryKind.eq a b ≡ some v
      → Lands (emit_binary BinaryKind.eq s).items m₀ m.stack v
  unfolding eval_binary emit_binary run_item write
  eq-Lands h =
      lands (exec-run _ (exec-run _ (exec-run _ reached running refl) running refl) running refl)
        (rw (left, right, ← some-injective _ v h, compare_flags-eq a b fa fb) (low_bit _ _)) refl
        running

  ne-Lands :
      eval_binary BinaryKind.ne a b ≡ some v
      → Lands (emit_binary BinaryKind.ne s).items m₀ m.stack v
  unfolding eval_binary emit_binary run_item write
  ne-Lands h =
      lands (exec-run _ (exec-run _ (exec-run _ reached running refl) running refl) running refl)
        (rw (left, right, ← some-injective _ v h, compare_flags-eq a b fa fb) (low_bit _ _)) refl
        running

  lt-Lands :
      eval_binary BinaryKind.lt a b ≡ some v
      → Lands (emit_binary BinaryKind.lt s).items m₀ m.stack v
  unfolding eval_binary emit_binary run_item write
  lt-Lands h =
      lands (exec-run _ (exec-run _ (exec-run _ reached running refl) running refl) running refl)
        (rw (left, right, ← some-injective _ v h, compare_flags-lt a b fa fb) (low_bit _ _)) refl
        running

  le-Lands :
      eval_binary BinaryKind.le a b ≡ some v
      → Lands (emit_binary BinaryKind.le s).items m₀ m.stack v
  unfolding eval_binary emit_binary run_item write
  le-Lands h =
      lands (exec-run _ (exec-run _ (exec-run _ reached running refl) running refl) running refl)
        (rw (left, right, ← some-injective _ v h, compare_flags-le a b fa fb) (low_bit _ _)) refl
        running

  -- The instructions of an operator leave the value of the operation in %rax.
  pub emit_binary-Lands :
      (k : BinaryKind) → eval_binary k a b ≡ some v → Lands (emit_binary k s).items m₀ m.stack v
  emit_binary-Lands BinaryKind.add h = add-Lands h
  emit_binary-Lands BinaryKind.sub h = sub-Lands h
  emit_binary-Lands BinaryKind.mul h = mul-Lands h
  emit_binary-Lands BinaryKind.div h = div-Lands h
  emit_binary-Lands BinaryKind.modulo h = modulo-Lands h
  emit_binary-Lands BinaryKind.eq h = eq-Lands h
  emit_binary-Lands BinaryKind.ne h = ne-Lands h
  emit_binary-Lands BinaryKind.lt h = lt-Lands h
  emit_binary-Lands BinaryKind.le h = le-Lands h

pub emit_binary-label_id : (k : BinaryKind) (s : Gen) → (emit_binary k s).label_id ≡ s.label_id
unfolding emit_binary
emit_binary-label_id BinaryKind.add s = refl
emit_binary-label_id _ s = refl

-- The instructions of an operator are skipped while a jump is pending.
pub emit_binary-skips :
    (k : BinaryKind) (s : Gen) (m₀ m : Machine) (target : Name)
    → Reaches s.items m₀ m
    → m.seek ≡ some target
    → Reaches (emit_binary k s).items m₀ m
unfolding emit_binary skip_item
emit_binary-skips BinaryKind.add s m₀ m t r p = exec-skip _ t r p
emit_binary-skips BinaryKind.sub s m₀ m t r p = exec-skip _ t r p
emit_binary-skips BinaryKind.mul s m₀ m t r p = exec-skip _ t r p
emit_binary-skips BinaryKind.div s m₀ m t r p = exec-skip _ t (exec-skip _ t r p) p
emit_binary-skips _ s m₀ m t r p = exec-skip _ t (exec-skip _ t (exec-skip _ t r p) p) p
