-- ===== src/Gen/Align/Expr.antt =====
-- The height of the stack along expressions and the arguments of calls.
use mathlib.Core.Path.{subst}
use ivan_cc.Prelude.{
  ok-injective, ℕ, suc, ◌+◌, ◌-◌, ◌%◌, some, ◌≡◌, refl, sym, pos, [], arith, take, ok, >>=-eq-ok,
}
use ivan_cc.Ast.{Node, Nodes, nil, cons}
use ivan_cc.Asm.Types.{Reg}
use ivan_cc.Asm.Emit
use ivan_cc.Gen.State.{Gen, asm, count, emit_push, type_of, offset_of, arg_reg}
use ivan_cc.Gen.Expr.{
  emit_expr, emit_addr, call_push_args, call_count_args, call_pop_args, align_pad, open_pad,
  close_call, reg_args, test_je, test_jne,
}
use ivan_cc.Gen.Align.Step.{Tracks, push-Tracks, pop-Tracks}
use ivan_cc.Gen.Align.Labels.{Agrees-trans, Marked-Agrees, false-Marked, true-Marked}
use ivan_cc.X86.Stack.{Height, Labels, track, track_item}
use ivan_cc.Gen.Align.Pieces.{
  one, emit_load-Level, emit_cast-Level, emit_binary-Level, emit_not-Level, test_je-Level,
  test_jne-Level, call-At,
}
use ivan_cc.Gen.Align.Goes.{Goes, stay, through, behind, counted-At, padded-At, and-At, or-At}

module _ (start : Height) (base frame : ℕ) (even : base % 2 ≡ 0) where
  abbrev At : Labels → ℕ → ℕ → Gen → Type 0
  At at c d s = Tracks at c start base frame d s

  abbrev height : ℕ → Height
  height d = record { words = base + d; frame = frame }

  mutual
    unfolding emit_expr call_count_args track_item

    emit_addr-At :
        (n : Node) (at : Labels) (c d : ℕ) (s s' : Gen)
        → emit_addr n s ≡ ok s'
        → At at c d s
        → Goes start base frame at c d s'
    emit_addr-At (Node.var i v) at c d s s' h t =
        let (off, e, h₁) = >>=-eq-ok (offset_of s v) _ h in
        subst (Goes start base frame at c d) (ok-injective h₁)
          (stay start base frame at c d _ (one at c start base frame d _ s (λ x y. refl) t))
    emit_addr-At (Node.deref i l) at c d s s' h t = emit_expr-At l at c d s s' h t
    emit_addr-At _ at c d s s' h t = cc

    emit_expr-At :
        (n : Node) (at : Labels) (c d : ℕ) (s s' : Gen)
        → emit_expr n s ≡ ok s'
        → At at c d s
        → Goes start base frame at c d s'
    emit_expr-At (Node.num i z) at c d s s' h t =
        subst (Goes start base frame at c d) (ok-injective h)
          (stay start base frame at c d _ (one at c start base frame d _ s (λ x y. refl) t))
    emit_expr-At (Node.str i k) at c d s s' h t =
        subst (Goes start base frame at c d) (ok-injective h)
          (stay start base frame at c d _ (one at c start base frame d _ s (λ x y. refl) t))
    emit_expr-At (Node.var i v) at c d s s' h t =
        let (off, e₁, h₁) = >>=-eq-ok (offset_of s v) _ h in
        let (ty, e₂, h₂) = >>=-eq-ok (type_of i) _ h₁ in
        subst (Goes start base frame at c d) (ok-injective h₂) (
          stay start base frame at c d _ (
            emit_load-Level at c start base frame d ty _
              (one at c start base frame d _ s (λ x y. refl) t)))
    emit_expr-At (Node.deref i l) at c d s s' h t =
        let (s₁, e₁, h₁) = >>=-eq-ok (emit_expr l s) _ h in
        let (ty, e₂, h₂) = >>=-eq-ok (type_of i) _ h₁ in
        subst (Goes start base frame at c d) (ok-injective h₂) (
          behind start base frame at c d d s₁ _
            (λ at₁ c₁ t₁. emit_load-Level at₁ c₁ start base frame d ty s₁ t₁)
            (emit_expr-At l at c d s s₁ e₁ t))
    emit_expr-At (Node.addr i l) at c d s s' h t = emit_addr-At l at c d s s' h t
    emit_expr-At (Node.cast i l) at c d s s' h t =
        let (s₁, e₁, h₁) = >>=-eq-ok (emit_expr l s) _ h in
        let (ty, e₂, h₂) = >>=-eq-ok (type_of i) _ h₁ in
        subst (Goes start base frame at c d) (ok-injective h₂) (
          behind start base frame at c d d s₁ _
            (λ at₁ c₁ t₁. emit_cast-Level at₁ c₁ start base frame d ty s₁ t₁)
            (emit_expr-At l at c d s s₁ e₁ t))
    emit_expr-At (Node.assign i l r) at c d s s' h t =
        let (s₁, e₁, h₁) = >>=-eq-ok (emit_addr l s) _ h in
        let (s₂, e₂, h₂) = >>=-eq-ok (emit_expr r (emit_push s₁)) _ h₁ in
        let (ty, e₃, h₃) = >>=-eq-ok (type_of i) _ h₂ in
        subst (Goes start base frame at c d) (ok-injective h₃) (
          through start base frame at c d d s₁ _ (emit_addr-At l at c d s s₁ e₁ t)
            (λ at₁ c₁ le a t₁.
              behind start base frame at₁ c₁ (d + 1) d s₂ _
                (λ at₂ c₂ t₂.
                  one at₂ c₂ start base frame d _ _ (λ x y. refl)
                    (pop-Tracks at₂ c₂ start base frame d s₂ Reg.rdi t₂))
                (emit_expr-At r at₁ c₁ (d + 1) (emit_push s₁) s₂ e₂
                  (push-Tracks at₁ c₁ start base frame d s₁ t₁))))
    emit_expr-At (Node.neg i l) at c d s s' h t =
        let (s₁, e₁, h₁) = >>=-eq-ok (emit_expr l s) _ h in
        subst (Goes start base frame at c d) (ok-injective h₁) (
          behind start base frame at c d d s₁ _
            (λ at₁ c₁ t₁. one at₁ c₁ start base frame d _ s₁ (λ x y. refl) t₁)
            (emit_expr-At l at c d s s₁ e₁ t))
    emit_expr-At (Node.logical_not i l) at c d s s' h t =
        let (s₁, e₁, h₁) = >>=-eq-ok (emit_expr l s) _ h in
        subst (Goes start base frame at c d) (ok-injective h₁) (
          behind start base frame at c d d s₁ _
            (λ at₁ c₁ t₁. emit_not-Level at₁ c₁ start base frame d s₁ t₁)
            (emit_expr-At l at c d s s₁ e₁ t))
    emit_expr-At (Node.logical_and i l r) at c d s s' h t =
        let k = s.label_id in
        let (s₁, e₁, h₁) = >>=-eq-ok (emit_expr l (count s)) _ h in
        let (s₂, e₂, h₂) = >>=-eq-ok (emit_expr r (test_je k s₁)) _ h₁ in
        subst (Goes start base frame at c d) (ok-injective h₂) (
          counted-At start base frame at c d d s _ t (λ t₀.
            through start base frame _ (k + 1) d d s₁ _
              (emit_expr-At l _ (k + 1) d (count s) s₁ e₁ t₀)
              (λ at₁ c₁ le a t₁.
                through start base frame at₁ c₁ d d s₂ _
                  (emit_expr-At r at₁ c₁ d _ s₂ e₂ (
                    test_je-Level at₁ c₁ start base frame d k s₁
                      (Marked-Agrees _ at₁ (k + 1) c₁ _ _ le a (false-Marked k (height d) at)) t₁))
                  (λ at₂ c₂ le₂ a₂ t₂. stay start base frame at₂ c₂ d _ (
                    and-At start base frame k at at₂ c₂ d s₂ (omega (arith, le, le₂))
                      (Agrees-trans _ at₁ at₂ (k + 1) c₁ le a a₂) t₂)))))
    emit_expr-At (Node.logical_or i l r) at c d s s' h t =
        let k = s.label_id in
        let (s₁, e₁, h₁) = >>=-eq-ok (emit_expr l (count s)) _ h in
        let (s₂, e₂, h₂) = >>=-eq-ok (emit_expr r (test_jne k s₁)) _ h₁ in
        subst (Goes start base frame at c d) (ok-injective h₂) (
          counted-At start base frame at c d d s _ t (λ t₀.
            through start base frame _ (k + 1) d d s₁ _
              (emit_expr-At l _ (k + 1) d (count s) s₁ e₁ t₀)
              (λ at₁ c₁ le a t₁.
                through start base frame at₁ c₁ d d s₂ _
                  (emit_expr-At r at₁ c₁ d _ s₂ e₂ (
                    test_jne-Level at₁ c₁ start base frame d k s₁
                      (Marked-Agrees _ at₁ (k + 1) c₁ _ _ le a (true-Marked k (height d) at)) t₁))
                  (λ at₂ c₂ le₂ a₂ t₂. stay start base frame at₂ c₂ d _ (
                    or-At start base frame k at at₂ c₂ d s₂ (omega (arith, le, le₂))
                      (Agrees-trans _ at₁ at₂ (k + 1) c₁ le a a₂) t₂)))))
    emit_expr-At (Node.binary k i l r) at c d s s' h t =
        let (s₁, e₁, h₁) = >>=-eq-ok (emit_expr r s) _ h in
        let (s₂, e₂, h₂) = >>=-eq-ok (emit_expr l (emit_push s₁)) _ h₁ in
        subst (Goes start base frame at c d) (ok-injective h₂) (
          through start base frame at c d d s₁ _ (emit_expr-At r at c d s s₁ e₁ t)
            (λ at₁ c₁ le a t₁.
              behind start base frame at₁ c₁ (d + 1) d s₂ _
                (λ at₂ c₂ t₂.
                  emit_binary-Level at₂ c₂ start base frame d k _
                    (pop-Tracks at₂ c₂ start base frame d s₂ Reg.rdi t₂))
                (emit_expr-At l at₁ c₁ (d + 1) (emit_push s₁) s₂ e₂
                  (push-Tracks at₁ c₁ start base frame d s₁ t₁))))
    emit_expr-At (Node.call i f args) at c d s s' h t =
        let n = call_count_args args in
        let k = n - reg_args n in
        let p = d + (d + k) % 2 in
        let (s₁, e₁, h₁) = >>=-eq-ok (call_push_args args (open_pad (align_pad s.depth k) s)) _ h in
        subst (Goes start base frame at c d) (ok-injective h₁) (
          behind start base frame at c (p + n) d s₁ _
            (λ at₁ c₁ t₁.
              subst
                (λ z. At at₁ c₁ d (
                  close_call k (align_pad z k) (
                    asm (Emit.emit_call f) (
                      asm (Emit.emit_mov_imm8 (pos 0) Reg.rax)
                        (call_pop_args (take (reg_args n) arg_reg) s₁)))))
                (sym t.counted) (call-At start base frame even at₁ c₁ d n s₁ f t₁))
            (call_push_args-At args at c p _ s₁ e₁ (padded-At start base frame at c d k s t)))
    emit_expr-At _ at c d s s' h t = cc

    call_push_args-At :
        (args : Nodes) (at : Labels) (c d : ℕ) (s s' : Gen)
        → call_push_args args s ≡ ok s'
        → At at c d s
        → Goes start base frame at c (d + call_count_args args) s'
    call_push_args-At nil at c d s s' h t =
        subst (Goes start base frame at c (d + 0)) (ok-injective h)
          (stay start base frame at c (d + 0) s (subst (λ w. At at c w s) (omega arith) t))
    call_push_args-At (cons arg args) at c d s s' h t =
        let n = call_count_args args in
        let (s₁, e₁, h₁) = >>=-eq-ok (call_push_args args s) _ h in
        let (s₂, e₂, h₂) = >>=-eq-ok (emit_expr arg s₁) _ h₁ in
        subst (Goes start base frame at c (d + suc n)) (ok-injective h₂) (
          through start base frame at c (d + n) (d + suc n) s₁ _
            (call_push_args-At args at c d s s₁ e₁ t)
            (λ at₁ c₁ le a t₁.
              behind start base frame at₁ c₁ (d + n) (d + suc n) s₂ _
                (λ at₂ c₂ t₂.
                  subst (λ w. At at₂ c₂ w (emit_push s₂)) (omega arith)
                    (push-Tracks at₂ c₂ start base frame (d + n) s₂ t₂))
                (emit_expr-At arg at₁ c₁ (d + n) s₁ s₂ e₂ t₁)))

-- Where the generator accepts an expression, with `depth` words pushed on an even number of words, its labels have
-- heights with which its code runs on every way through it, jumps taken or not: a jump and the code in front of a label
-- have the height of the label, every pop finds its word, every call stands where %rsp is a multiple of 16, and the end
-- has the height of the start, and `depth` with it.
pub emit_expr-aligned :
    (n : Node) (base frame d : ℕ) (s s' : Gen)
    → base % 2 ≡ 0
    → s.depth ≡ pos d
    → s.items ≡ []
    → emit_expr n s ≡ ok s'
    → (s'.depth ≡ pos d)
      × ((at : Labels) × (track at s'.items (record { words = base + d; frame = frame })
            ≡ some (record { words = base + d; frame = frame })))
unfolding track
emit_expr-aligned n base frame d s s' even counted empty h =
    let start : Height = record { words = base + d; frame = frame } in
    let t : Tracks (λ l. start) s.label_id start base frame d s = record {
      counted = counted;
      numbered = refl;
      tracked = λ at' a. rw empty refl;
    } in
    let r = emit_expr-At start base frame even n (λ l. start) s.label_id d s s' h t in
    (r.reached.counted, (r.heights, r.reached.tracked r.heights (λ l o. refl)))
