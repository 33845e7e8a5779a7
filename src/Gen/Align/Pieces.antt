-- ===== src/Gen/Align/Pieces.antt =====
-- The height of the stack along the pieces of an expression and along a call.
use mathlib.Core.Path.{subst}
use ivan_cc.Prelude.{
  ℕ, ◌+◌, ◌-◌, ◌%◌, ◌≤◌, some, ◌≡◌, refl, ◌∙◌, sym, pos, arith, length, length-take_le, take, ◌==◌,
  true,
}
use ivan_cc.Prelude.Name.{Name}
use ivan_cc.Ast.{CType, BinaryKind}
use ivan_cc.Asm.Types.{Reg, Op, Item, instr, no_operand}
use ivan_cc.Asm.Emit
use ivan_cc.Gen.State.{Gen, asm, emit_load, emit_cast, arg_reg, false_label, true_label, end_label}
use ivan_cc.Gen.Expr.{
  call_pop_args, align_pad, close_call, reg_args, emit_binary, emit_not, and_tail, or_tail, test_je,
  test_jne,
}
use ivan_cc.Gen.Align.Step.{Tracks, neutral, call_pop_args-Tracks, align_pad-pos, close_call-Tracks}
use ivan_cc.Gen.Align.Labels.{Marked}
use ivan_cc.X86.Stack.{Height, Labels, arrive, arrive-at, track_item}

module _ (at : Labels) (c : ℕ) (start : Height) (base frame d : ℕ) where
  abbrev Level : Gen → Type 0
  Level = Tracks at c start base frame d

  abbrev here : Height
  here = record { words = base + d; frame = frame }

  pub emit_load-Level : (t : CType) (s : Gen) → Level s → Level (emit_load t s)
  unfolding emit_load track_item
  emit_load-Level CType.void s t = neutral at c start base frame d s _ (λ at' a. refl) t
  emit_load-Level CType.char s t = neutral at c start base frame d s _ (λ at' a. refl) t
  emit_load-Level CType.int s t = neutral at c start base frame d s _ (λ at' a. refl) t
  emit_load-Level (CType.ptr b) s t = neutral at c start base frame d s _ (λ at' a. refl) t
  emit_load-Level (CType.array b n) s t = t

  pub emit_cast-Level : (t : CType) (s : Gen) → Level s → Level (emit_cast t s)
  unfolding emit_cast track_item
  emit_cast-Level CType.void s t = t
  emit_cast-Level CType.char s t = neutral at c start base frame d s _ (λ at' a. refl) t
  emit_cast-Level CType.int s t = neutral at c start base frame d s _ (λ at' a. refl) t
  emit_cast-Level (CType.ptr b) s t = t
  emit_cast-Level (CType.array b n) s t = t

  -- Up to three items of the operators.
  pub one :
      (i : Item) (s : Gen)
      → ((at' : Labels) → (h : Height) → track_item at' i h ≡ some h)
      → Level s
      → Level (asm (Emit.new i) s)
  one i s n t = neutral at c start base frame d s i (λ at' a. n at' _) t

  pub emit_binary-Level : (k : BinaryKind) (s : Gen) → Level s → Level (emit_binary k s)
  unfolding emit_binary track_item
  emit_binary-Level BinaryKind.add s t = one _ _ (λ x h. refl) t
  emit_binary-Level BinaryKind.sub s t = one _ _ (λ x h. refl) t
  emit_binary-Level BinaryKind.mul s t = one _ _ (λ x h. refl) t
  emit_binary-Level BinaryKind.div s t = one _ _ (λ x h. refl) (one _ _ (λ x h. refl) t)
  emit_binary-Level _ s t = one _ _ (λ x h. refl) (one _ _ (λ x h. refl) (one _ _ (λ x h. refl) t))

  pub emit_not-Level : (s : Gen) → Level s → Level (emit_not s)
  unfolding emit_not track_item
  emit_not-Level s t = one _ _ (λ x h. refl) (one _ _ (λ x h. refl) (one _ _ (λ x h. refl) t))

  -- A jump or a label, at the height of the label.
  at_label :
      (i : Item) (l : Name) (s : Gen)
      → ((at' : Labels) → (h : Height) → track_item at' i h ≡ arrive at' l h)
      → Marked at c l here
      → Level s
      → Level (asm (Emit.new i) s)
  at_label i l s n m t =
      neutral at c start base frame d s i
        (λ at' a. n at' here ∙ arrive-at at' l here (a l m.old ∙ m.stands)) t

  pub test_je-Level :
      (k : ℕ) (s : Gen) → Marked at c (false_label k) here → Level s → Level (test_je k s)
  unfolding test_je track_item
  test_je-Level k s m t = at_label _ _ _ (λ x h. refl) m (one _ _ (λ x h. refl) t)

  pub test_jne-Level :
      (k : ℕ) (s : Gen) → Marked at c (true_label k) here → Level s → Level (test_jne k s)
  unfolding test_jne track_item
  test_jne-Level k s m t = at_label _ _ _ (λ x h. refl) m (one _ _ (λ x h. refl) t)

  pub and_tail-Level :
      (k : ℕ) (s : Gen)
      → Marked at c (false_label k) here
      → Marked at c (end_label k) here
      → Level s
      → Level (and_tail k s)
  unfolding and_tail track_item
  and_tail-Level k s f e t =
      at_label _ _ _ (λ x h. refl) e
        (one _ _ (λ x h. refl)
          (at_label _ _ _ (λ x h. refl) f
            (at_label _ _ _ (λ x h. refl) e (one _ _ (λ x h. refl) t))))

  pub or_tail-Level :
      (k : ℕ) (s : Gen)
      → Marked at c (true_label k) here
      → Marked at c (end_label k) here
      → Level s
      → Level (or_tail k s)
  unfolding or_tail track_item
  or_tail-Level k s f e t =
      at_label _ _ _ (λ x h. refl) e
        (one _ _ (λ x h. refl)
          (at_label _ _ _ (λ x h. refl) f
            (at_label _ _ _ (λ x h. refl) e (one _ _ (λ x h. refl) t))))

reg_args-le_max : (n : ℕ) → reg_args n ≤ 6
unfolding reg_args
reg_args-le_max n = ground arith

-- The argument registers that a call takes are as many as `nReg`.
length-take-arg_reg : (n : ℕ) → length (take (reg_args n) arg_reg) ≡ reg_args n
unfolding reg_args
length-take-arg_reg n = length-take_le _ arg_reg (reg_args-le_max n)

reg_args-le : (n : ℕ) → reg_args n ≤ n
unfolding reg_args
reg_args-le n = ground arith

module _ (start : Height) (base frame : ℕ) (even : base % 2 ≡ 0) where
  abbrev At : Labels → ℕ → ℕ → Gen → Type 0
  At at c d s = Tracks at c start base frame d s

  even_words : (d k : ℕ) → ((base + (d + (d + k) % 2 + k)) % 2 == 0) ≡ true
  even_words d k = ground arith

  aligned_call :
      (at : Labels) (d k : ℕ) (func_name : Name)
      → track_item at
          (instr Op.call (Emit.target func_name) no_operand)
          (record { words = base + (d + (d + k) % 2 + k); frame = frame })
        ≡ some (record { words = base + (d + (d + k) % 2 + k); frame = frame })
  unfolding track_item
  aligned_call at d k func_name = rw (even_words d k)

  -- The call itself: padding, arguments, the call on an even number of words, and the release.
  pub call-At :
      (at : Labels) (c d n : ℕ) (s₁ : Gen) (func_name : Name)
      → At at c (d + (d + (n - reg_args n)) % 2 + n) s₁
      → At at c d (
          close_call (n - reg_args n) (align_pad (pos d) (n - reg_args n)) (
            asm (Emit.emit_call func_name) (
              asm
                (Emit.emit_mov_imm8 (pos 0) Reg.rax)
                (call_pop_args (take (reg_args n) arg_reg) s₁))))
  unfolding track_item
  call-At at c d n s₁ func_name t =
      let k = n - reg_args n in
      let p = (d + k) % 2 in
      let regs = take (reg_args n) arg_reg in
      let called =
        asm (Emit.emit_call func_name)
          (asm (Emit.emit_mov_imm8 (pos 0) Reg.rax) (call_pop_args regs s₁)) in
      let t₁ =
        call_pop_args-Tracks at c start base frame (d + p + k) regs s₁
          (subst (λ w. At at c w s₁) (omega (arith, reg_args-le n, length-take-arg_reg n)) t) in
      let t₂ =
        one at c start base frame (d + p + k) (instr Op.mov (Emit.reg8 Reg.rax) (Emit.imm (pos 0)))
          (call_pop_args regs s₁) (λ x h. refl) t₁ in
      let t₃ =
        neutral at c start base frame (d + p + k) _
          (instr Op.call (Emit.target func_name) no_operand)
          (λ at' a. aligned_call at' d k func_name) t₂ in
      subst (λ z. At at c d (close_call k z called)) (sym (align_pad-pos d k))
        (close_call-Tracks at c start base frame d k p called t₃)
