-- ===== src/Gen/Correct/Expr.antt =====
-- Expressions of numbers, by induction on the tree.
use mathlib.Core.Path.{subst}
use mathlib.Core.Option.{some-injective}
use ivan_cc.Prelude.{
  ℕ, ◌≤◌, none, some, ok, List, ◌∷◌, ◌≡◌, refl, ◌∙◌, ap, inl, inr, Bool-cases, ℤ, pos, to_word,
  arith,
}
use ivan_cc.Prelude.Name.{Name}
use ivan_cc.Ast.{CType, Info, Node, BinaryKind}
use ivan_cc.Asm.Types.{Reg, Op, no_operand, Item}
use ivan_cc.Asm.Emit
use ivan_cc.Gen.State.{Gen, asm, count, emit_push, emit_pop, emit_cast, false_label, true_label}
use ivan_cc.Gen.Expr.{emit_expr, emit_binary, emit_not, and_tail, or_tail, test_je, test_jne}
use ivan_cc.Gen.Value.{IsArith, fit-eq, truth_value, cast_value, eval, eval-Fits, and_then-eq-some}
use ivan_cc.X86.Machine.{and_then}
use ivan_cc.Gen.Correct.Run.{exec-run, exec-skip, Reaches, Lands, relands}
use ivan_cc.Gen.Correct.Binary.{emit_binary-Lands, emit_binary-label_id, emit_binary-skips}
use ivan_cc.Gen.Correct.Unary.{mov_imm-Lands, neg-Lands, not-Lands, cast-Lands}
use ivan_cc.Gen.Correct.Jumps.{
  Older, Older-le, Older-false_label, Older-true_label, test_je-Tests, test_jne-Tests,
  test_je-skips, test_jne-skips, test_je-label_id, test_jne-label_id, and_tail-label_id,
  or_tail-label_id, and_tail-falls, and_tail-jumps, and_tail-skips, or_tail-falls, or_tail-jumps,
  or_tail-skips,
}
use ivan_cc.X86.Machine.{Machine, run_item, skip_item, exec, write, is_zero}

-- The generator's code for `n` from state `s`: it is generated; a pending jump to an older label
-- passes over it; and run with no jump pending it leaves the value of `n` in %rax.
pub record Emits (n : Node) (s : Gen) : Type 0 where
  pub out : Gen
  pub returns : emit_expr n s ≡ ok out
  pub grows : s.label_id ≤ out.label_id
  pub skips :
      (target : Name) (m₀ m : Machine)
      → Older target s.label_id
      → Reaches s.items m₀ m
      → m.seek ≡ some target
      → Reaches out.items m₀ m
  pub computes :
      (v : ℤ) (m₀ m : Machine)
      → eval n ≡ some v
      → Reaches s.items m₀ m
      → m.seek ≡ none
      → Lands out.items m₀ m.stack v

emit_cast-label_id : (t : CType) (s : Gen) → (emit_cast t s).label_id ≡ s.label_id
unfolding emit_cast
emit_cast-label_id CType.char s = refl
emit_cast-label_id _ s = refl

emit_cast-skips :
    (t : CType) (s : Gen) (m₀ m : Machine) (target : Name)
    → Reaches s.items m₀ m
    → m.seek ≡ some target
    → Reaches (emit_cast t s).items m₀ m
unfolding emit_cast skip_item
emit_cast-skips CType.char s m₀ m target r p = exec-skip _ target r p
emit_cast-skips CType.int s m₀ m target r p = exec-skip _ target r p
emit_cast-skips _ s m₀ m target r p = r

pop_run :
    (r : Reg) (v : ℕ) (rest : List ℕ) (m : Machine)
    → m.stack ≡ v ∷ rest
    → run_item (Item.instr Op.pop (Emit.reg64 r) no_operand) m
      ≡ some (record m { regs = write m.regs r v; stack = rest })
unfolding run_item
pop_run r v rest m e =
    ap
      (λ st. elim st [
        | List.[] ↦ none
        | x ∷ xs ↦ some (record m { regs = write m.regs r x; stack = xs })
      ])
      e

push_run :
    (m : Machine)
    → run_item (Item.instr Op.push (Emit.reg64 Reg.rax) no_operand) m
      ≡ some (record m { stack = m.regs Reg.rax ∷ m.stack })
unfolding run_item
push_run m = refl

write_rdi :
    (f : Reg → ℕ) (v : ℕ)
    → (write f Reg.rdi v Reg.rax ≡ f Reg.rax) × (write f Reg.rdi v Reg.rdi ≡ v)
unfolding write
write_rdi f v = (refl, refl)

module _ (i : Info) (s : Gen) where
  num-Emits : (z : ℤ) → Emits (Node.num i z) s
  unfolding emit_expr eval skip_item
  num-Emits z = record {
    out = asm (Emit.emit_mov_imm z Reg.rax) s;
    returns = refl;
    grows = omega arith;
    skips = λ target m₀ m older r p. exec-skip _ target r p;
    computes = λ v m₀ m h r n. relands refl (fit-eq z v h).0 (mov_imm-Lands s m₀ m r n z);
  }

  neg-Emits : (l : Node) → IsArith l → Emits l s → Emits (Node.neg i l) s
  unfolding emit_expr eval skip_item
  neg-Emits l p el = record {
    out = asm (Emit.emit_neg Reg.rax) el.out;
    returns = rw el.returns;
    grows = el.grows;
    skips = λ target m₀ m older r q. exec-skip _ target (el.skips target m₀ m older r q) q;
    computes = λ v m₀ m h r n.
        let (a, ea, h') = and_then-eq-some (eval l) _ h in
        let la = el.computes a m₀ m ea r n in
        relands la.balanced refl
          (neg-Lands el.out m₀ la.last la.reached la.settled a (eval-Fits l a p ea) la.value v h');
  }

  not-Emits : (l : Node) → IsArith l → Emits l s → Emits (Node.logical_not i l) s
  unfolding emit_expr eval emit_not skip_item
  not-Emits l p el = record {
    out = emit_not el.out;
    returns = rw el.returns;
    grows = el.grows;
    skips = λ target m₀ m older r q.
        exec-skip _ target
          (exec-skip _ target (exec-skip _ target (el.skips target m₀ m older r q) q) q) q;
    computes = λ v m₀ m h r n.
        let (a, ea, h') = and_then-eq-some (eval l) _ h in
        let la = el.computes a m₀ m ea r n in
        relands la.balanced (some-injective _ _ h')
          (not-Lands el.out m₀ la.last la.reached la.settled a (eval-Fits l a p ea) la.value);
  }

  binary-Emits :
      (k : BinaryKind) (l r : Node)
      → IsArith l
      → IsArith r
      → (er : Emits r s) → Emits l (emit_push er.out)
      → Emits (Node.binary k i l r) s
  unfolding emit_expr eval skip_item
  binary-Emits k l r pl pr er el = record {
    out = emit_binary k (emit_pop Reg.rdi el.out);
    returns = rw (er.returns, el.returns);
    grows = omega (arith, er.grows, el.grows, emit_binary-label_id k (emit_pop Reg.rdi el.out));
    skips = λ target m₀ m older re p.
        emit_binary-skips k (emit_pop Reg.rdi el.out) m₀ m target
          (exec-skip _ target
            (el.skips target m₀ m (Older-le er.grows older)
              (exec-skip _ target (er.skips target m₀ m older re p) p) p)
            p)
          p;
    computes = λ v m₀ m h re n.
        let (a, ea, h') = and_then-eq-some (eval l) _ h in
        let (b, eb, h'') = and_then-eq-some (eval r) _ h' in
        let lb = er.computes b m₀ m eb re n in
        let la =
          el.computes a m₀ _ ea (exec-run _ lb.reached lb.settled (push_run lb.last)) lb.settled in
        relands lb.balanced refl (
          emit_binary-Lands (emit_pop Reg.rdi el.out) m₀ _ a b v (eval-Fits l a pl ea)
            (eval-Fits r b pr eb)
            (exec-run _ la.reached la.settled (pop_run Reg.rdi _ _ la.last la.balanced)) la.settled
            ((write_rdi la.last.regs _).0 ∙ la.value) ((write_rdi la.last.regs _).1 ∙ lb.value) k
            h'');
  }

  cast-Emits :
      (l : Node) (t : CType) → i.type ≡ some t → IsArith l → Emits l s → Emits (Node.cast i l) s
  unfolding emit_expr eval
  cast-Emits l t e p el = record {
    out = emit_cast t el.out;
    returns = rw (el.returns, e);
    grows = omega (arith, el.grows, emit_cast-label_id t el.out);
    skips = λ target m₀ m older r q.
        emit_cast-skips t el.out m₀ m target (el.skips target m₀ m older r q) q;
    computes = λ v m₀ m h r n.
        let (a, ea, h') = and_then-eq-some (eval l) _ h in
        let la = el.computes a m₀ m ea r n in
        let h'' : cast_value (some t) a ≡ some v = subst (λ o. cast_value o a ≡ some v) e h' in
        relands la.balanced (some-injective _ _ h'')
          (cast-Lands el.out m₀ la.last la.reached la.settled a (eval-Fits l a p ea) la.value t);
  }

  -- The right operand of the connective, entered with no jump pending at its code.
  and_right :
      (r : Node) (s₁ : Gen) (er : Emits r s₁) (v : ℤ) (m₀ m : Machine)
      → IsArith r
      → and_then (eval r) truth_value ≡ some v
      → Reaches s₁.items m₀ m
      → m.seek ≡ none
      → Lands (and_tail s.label_id (test_je s.label_id er.out)).items m₀ m.stack v
  and_right r s₁ er v m₀ m p h re n =
      let (b, eb, h') = and_then-eq-some (eval r) truth_value h in
      let lb = er.computes b m₀ m eb re n in
      let t =
        test_je-Tests s.label_id er.out m₀ lb.last lb.reached lb.settled b (eval-Fits r b p eb)
          lb.value in
      elim (Bool-cases (is_zero b)) [
        | inl z ↦
            relands (t.balanced ∙ lb.balanced) (some-injective _ v (rw z at h'))
              (and_tail-jumps s.label_id _ m₀ t.last t.reached (rw z at t.pending))
        | inr nz ↦
            relands (t.balanced ∙ lb.balanced) (some-injective _ v (rw nz at h'))
              (and_tail-falls s.label_id _ m₀ t.last t.reached (rw nz at t.pending))
      ]

  and-Emits :
      (l r : Node)
      → IsArith l
      → IsArith r
      → (el : Emits l (count s)) → (er : Emits r (test_je s.label_id el.out))
      → Emits (Node.logical_and i l r) s
  unfolding emit_expr eval
  and-Emits l r pl pr el er = record {
    out = and_tail s.label_id (test_je s.label_id er.out);
    returns = rw (el.returns, er.returns);
    grows = omega (
      arith,
      el.grows,
      er.grows,
      test_je-label_id s.label_id el.out,
      test_je-label_id s.label_id er.out,
      and_tail-label_id s.label_id (test_je s.label_id er.out),
    );
    skips = λ target m₀ m older re p.
        and_tail-skips s.label_id _ m₀ m
          (test_je-skips s.label_id er.out m₀ m
            (er.skips target m₀ m
              (Older-le (omega (arith, el.grows, test_je-label_id s.label_id el.out)) older)
              (test_je-skips s.label_id el.out m₀ m
                (el.skips target m₀ m (Older-le (omega arith) older) re p) target p)
              p)
            target p)
          target older p;
    computes = λ v m₀ m h re n.
        let (a, ea, h') = and_then-eq-some (eval l) _ h in
        let la = el.computes a m₀ m ea re n in
        let t₁ =
          test_je-Tests s.label_id el.out m₀ la.last la.reached la.settled a (eval-Fits l a pl ea)
            la.value in
        elim (Bool-cases (is_zero a)) [
          | inl z ↦ relands (t₁.balanced ∙ la.balanced) (some-injective (pos 0) v (rw z at h')) (
              and_tail-jumps s.label_id _ m₀ t₁.last
                (test_je-skips s.label_id er.out m₀ t₁.last
                  (er.skips (false_label s.label_id) m₀ t₁.last
                    (Older-le (omega (arith, el.grows, test_je-label_id s.label_id el.out))
                      (Older-false_label s.label_id))
                    t₁.reached (rw z at t₁.pending))
                  (false_label s.label_id) (rw z at t₁.pending))
                (rw z at t₁.pending))
          | inr nz ↦
              relands (t₁.balanced ∙ la.balanced) refl
                (and_right r _ er v m₀ t₁.last pr (rw nz at h') t₁.reached (rw nz at t₁.pending))
        ];
  }

  -- The right operand of the connective, entered with no jump pending at its code.
  or_right :
      (r : Node) (s₁ : Gen) (er : Emits r s₁) (v : ℤ) (m₀ m : Machine)
      → IsArith r
      → and_then (eval r) truth_value ≡ some v
      → Reaches s₁.items m₀ m
      → m.seek ≡ none
      → Lands (or_tail s.label_id (test_jne s.label_id er.out)).items m₀ m.stack v
  or_right r s₁ er v m₀ m p h re n =
      let (b, eb, h') = and_then-eq-some (eval r) truth_value h in
      let lb = er.computes b m₀ m eb re n in
      let t =
        test_jne-Tests s.label_id er.out m₀ lb.last lb.reached lb.settled b (eval-Fits r b p eb)
          lb.value in
      elim (Bool-cases (is_zero b)) [
        | inl z ↦
            relands (t.balanced ∙ lb.balanced) (some-injective _ v (rw z at h'))
              (or_tail-falls s.label_id _ m₀ t.last t.reached (rw z at t.pending))
        | inr nz ↦
            relands (t.balanced ∙ lb.balanced) (some-injective _ v (rw nz at h'))
              (or_tail-jumps s.label_id _ m₀ t.last t.reached (rw nz at t.pending))
      ]

  or-Emits :
      (l r : Node)
      → IsArith l
      → IsArith r
      → (el : Emits l (count s)) → (er : Emits r (test_jne s.label_id el.out))
      → Emits (Node.logical_or i l r) s
  unfolding emit_expr eval
  or-Emits l r pl pr el er = record {
    out = or_tail s.label_id (test_jne s.label_id er.out);
    returns = rw (el.returns, er.returns);
    grows = omega (
      arith,
      el.grows,
      er.grows,
      test_jne-label_id s.label_id el.out,
      test_jne-label_id s.label_id er.out,
      or_tail-label_id s.label_id (test_jne s.label_id er.out),
    );
    skips = λ target m₀ m older re p.
        or_tail-skips s.label_id _ m₀ m
          (test_jne-skips s.label_id er.out m₀ m
            (er.skips target m₀ m
              (Older-le (omega (arith, el.grows, test_jne-label_id s.label_id el.out)) older)
              (test_jne-skips s.label_id el.out m₀ m
                (el.skips target m₀ m (Older-le (omega arith) older) re p) target p)
              p)
            target p)
          target older p;
    computes = λ v m₀ m h re n.
        let (a, ea, h') = and_then-eq-some (eval l) _ h in
        let la = el.computes a m₀ m ea re n in
        let t₁ =
          test_jne-Tests s.label_id el.out m₀ la.last la.reached la.settled a (eval-Fits l a pl ea)
            la.value in
        elim (Bool-cases (is_zero a)) [
          | inl z ↦
              relands (t₁.balanced ∙ la.balanced) refl
                (or_right r _ er v m₀ t₁.last pr (rw z at h') t₁.reached (rw z at t₁.pending))
          | inr nz ↦ relands (t₁.balanced ∙ la.balanced) (some-injective (pos 1) v (rw nz at h')) (
              or_tail-jumps s.label_id _ m₀ t₁.last
                (test_jne-skips s.label_id er.out m₀ t₁.last
                  (er.skips (true_label s.label_id) m₀ t₁.last
                    (Older-le (omega (arith, el.grows, test_jne-label_id s.label_id el.out))
                      (Older-true_label s.label_id))
                    t₁.reached (rw nz at t₁.pending))
                  (true_label s.label_id) (rw nz at t₁.pending))
                (rw nz at t₁.pending))
        ];
  }

-- Every expression of numbers, from every state of the generator.
pub emit_expr-Emits : (n : Node) → IsArith n → (s : Gen) → Emits n s
emit_expr-Emits (Node.num i z) p s = num-Emits i s z
emit_expr-Emits (Node.neg i l) p s = neg-Emits i s l p (emit_expr-Emits l p s)
emit_expr-Emits (Node.logical_not i l) p s = not-Emits i s l p (emit_expr-Emits l p s)
emit_expr-Emits (Node.cast i l) p s = cast-Emits i s l p.0.0 p.0.1 p.1 (emit_expr-Emits l p.1 s)
emit_expr-Emits (Node.binary k i l r) p s =
    let er = emit_expr-Emits r p.1 s in
    binary-Emits i s k l r p.0 p.1 er (emit_expr-Emits l p.0 (emit_push er.out))
emit_expr-Emits (Node.logical_and i l r) p s =
    let el = emit_expr-Emits l p.0 (count s) in
    and-Emits i s l r p.0 p.1 el (emit_expr-Emits r p.1 (test_je s.label_id el.out))
emit_expr-Emits (Node.logical_or i l r) p s =
    let el = emit_expr-Emits l p.0 (count s) in
    or-Emits i s l r p.0 p.1 el (emit_expr-Emits r p.1 (test_jne s.label_id el.out))
emit_expr-Emits n p s = elim p [ ]

-- The code generator turns every expression of numbers into code, and where C defines the value
-- of the expression, running that code behind any code that reaches a machine with no jump pending
-- leaves the value in %rax, the stack as it was and no jump pending.
pub emit_expr-eval :
    (n : Node) (v : ℤ) (s : Gen) (m₀ m : Machine)
    → IsArith n
    → eval n ≡ some v
    → exec s.items m₀ ≡ some m
    → m.seek ≡ none
    → (s' : Gen) × (m' : Machine) × (emit_expr n s ≡ ok s')
      × (exec s'.items m₀ ≡ some m')
      × (m'.regs Reg.rax ≡ to_word 64 v)
      × (m'.stack ≡ m.stack)
      × (m'.seek ≡ none)
emit_expr-eval n v s m₀ m p h r running =
    let e = emit_expr-Emits n p s in
    let l = e.computes v m₀ m h (record { runs = r }) running in
    (e.out, l.last, e.returns, l.reached.runs, l.value, l.balanced, l.settled)
