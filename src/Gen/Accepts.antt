-- ===== src/Gen/Accepts.antt =====
-- The expressions that the code generator accepts.
use mathlib.Core.Path.{subst}
use ivan_cc.Prelude.{
  ℕ, zero, suc, ◌-◌, ◌<◌, none, some, List, [], ◌∷◌, ◌≡◌, refl, sym, ◌∙◌, ap, ℤ, pos, length,
  get_elem?, Outcome, ok, err, ◌>>=◌, null_pointer, arith, Bool, true, false, if◌then◌else◌, ltb,
  pos_part, ◌+ℤ◌,
}
use ivan_cc.Ast.{CType, BinaryKind, Info, Node, Nodes, nil, cons, Var}
use ivan_cc.Asm.Types.{Reg}
use ivan_cc.Gen.State.{Gen, count, emit_push, emit_pop, emit_load, emit_cast, offset_of, type_of}
use ivan_cc.Gen.Expr.{
  emit_expr, emit_addr, call_push_args, call_pop_args, emit_binary, emit_not, and_tail, or_tail,
  test_je, test_jne, open_pad, close_call, align_pad, is_zero, call_count_args, reg_args,
}

abbrev pub Typed : Info → Type 0
Typed i = (t : CType) × (i.type ≡ some t)

-- Every node has its type, every variable is one of `k` locals, and an address is taken of a variable or of `*`.
abbrev mutual
  pub IsLvalue : ℕ → Node → Type 0
  IsLvalue k (Node.var i v) = v < k
  IsLvalue k (Node.deref i l) = IsExpr k l
  IsLvalue k _ = ⊥

  pub IsExpr : ℕ → Node → Type 0
  IsExpr k (Node.num i n) = Unit
  IsExpr k (Node.str i n) = Unit
  IsExpr k (Node.var i v) = (v < k) × Typed i
  IsExpr k (Node.deref i l) = IsExpr k l × Typed i
  IsExpr k (Node.addr i l) = IsLvalue k l
  IsExpr k (Node.cast i l) = IsExpr k l × Typed i
  IsExpr k (Node.assign i l r) = IsLvalue k l × IsExpr k r × Typed i
  IsExpr k (Node.neg i l) = IsExpr k l
  IsExpr k (Node.logical_not i l) = IsExpr k l
  IsExpr k (Node.logical_and i l r) = IsExpr k l × IsExpr k r
  IsExpr k (Node.logical_or i l r) = IsExpr k l × IsExpr k r
  IsExpr k (Node.binary op i l r) = IsExpr k l × IsExpr k r
  IsExpr k (Node.call i f args) = AreExprs k args
  IsExpr k _ = ⊥

  pub AreExprs : ℕ → Nodes → Type 0
  AreExprs k nil = Unit
  AreExprs k (cons n ns) = IsExpr k n × AreExprs k ns

-- The code comes out, and the locals are what they were.
abbrev pub Returns : List Var → Outcome Gen → Type 0
Returns vars o = (s : Gen) × (o ≡ ok s) × (s.locals ≡ vars)

pub bound : (vars : List Var) (v : ℕ) → v < length vars → (x : Var) × (get_elem? vars v ≡ some x)
bound [] v h = absurd (omega arith)
bound (x ∷ vars) zero h = (x, refl)
bound (x ∷ vars) (suc v) h = bound vars v (omega arith)

module _ (vars : List Var) where
  Kept : Gen → Type 0
  Kept s = s.locals ≡ vars

  pub then_ok :
      (o : Outcome Gen) (f : Gen → Outcome Gen)
      → Returns vars o
      → ((s : Gen) → s.locals ≡ vars → Returns vars (f s))
      → Returns vars (o >>= f)
  then_ok o f (s, e, kept) next =
      let (s', e', kept') = next s kept in (s', ap (λ x. x >>= f) e ∙ e', kept')

  offset_ok :
      (s : Gen) (v : ℕ) (f : ℤ → Outcome Gen)
      → s.locals ≡ vars
      → v < length vars
      → ((z : ℤ) → Returns vars (f z))
      → Returns vars (offset_of s v >>= f)
  offset_ok s v f kept h next =
      let (x, e) = bound vars v h in
      let e' : get_elem? s.locals v ≡ some x = ap (λ (xs : List Var). get_elem? xs v) kept ∙ e in
      subst
        (λ o.
          Returns vars
            ((elim o as (λ z. Outcome ℤ) [ none ↦ err null_pointer | some y ↦ ok y.offset ]) >>= f))
        (sym e') (next x.offset)

  type_ok :
      (i : Info) (f : CType → Outcome Gen)
      → Typed i
      → ((t : CType) → Returns vars (f t))
      → Returns vars (type_of i >>= f)
  type_ok i f (t, e) next =
      subst
        (λ o.
          Returns vars
            ((elim o as (λ z. Outcome CType) [ none ↦ err null_pointer | some y ↦ ok y ]) >>= f))
        (sym e) (next t)

emit_load-locals : (t : CType) (s : Gen) → (emit_load t s).locals ≡ s.locals
unfolding emit_load
emit_load-locals (CType.array base len) s = refl
emit_load-locals CType.void s = refl
emit_load-locals CType.char s = refl
emit_load-locals CType.int s = refl
emit_load-locals (CType.ptr base) s = refl

emit_cast-locals : (t : CType) (s : Gen) → (emit_cast t s).locals ≡ s.locals
unfolding emit_cast
emit_cast-locals (CType.array base len) s = refl
emit_cast-locals CType.void s = refl
emit_cast-locals CType.char s = refl
emit_cast-locals CType.int s = refl
emit_cast-locals (CType.ptr base) s = refl

emit_binary-locals : (k : BinaryKind) (s : Gen) → (emit_binary k s).locals ≡ s.locals
unfolding emit_binary
emit_binary-locals BinaryKind.add s = refl
emit_binary-locals BinaryKind.sub s = refl
emit_binary-locals BinaryKind.mul s = refl
emit_binary-locals BinaryKind.div s = refl
emit_binary-locals BinaryKind.modulo s = refl
emit_binary-locals BinaryKind.eq s = refl
emit_binary-locals BinaryKind.ne s = refl
emit_binary-locals BinaryKind.lt s = refl
emit_binary-locals BinaryKind.le s = refl

call_pop_args-locals : (regs : List Reg) (s : Gen) → (call_pop_args regs s).locals ≡ s.locals
unfolding call_pop_args
call_pop_args-locals [] s = refl
call_pop_args-locals (r ∷ regs) s = call_pop_args-locals regs (emit_pop r s)

pub if-locals :
    (c : Bool) (a b : Gen) (vars : List Var)
    → a.locals ≡ vars
    → b.locals ≡ vars
    → (if c then a else b).locals ≡ vars
if-locals true a b vars h h' = h
if-locals false a b vars h h' = h'

open_pad-locals : (p : ℤ) (s : Gen) → (open_pad p s).locals ≡ s.locals
unfolding open_pad
open_pad-locals p s = if-locals (is_zero p) s _ s.locals refl refl

close_call-locals : (n : ℕ) (p : ℤ) (s : Gen) → (close_call n p s).locals ≡ s.locals
unfolding close_call
close_call-locals n p s = if-locals (ltb 0 (pos_part (pos n +ℤ p))) _ s s.locals refl refl

module _ (vars : List Var) where
  mutual
    unfolding emit_addr emit_not and_tail or_tail test_je test_jne

    addr-Returns :
        (n : Node) (s : Gen)
        → IsLvalue (length vars) n
        → s.locals ≡ vars
        → Returns vars (emit_addr n s)
    addr-Returns (Node.var i v) s p kept = offset_ok vars s v _ kept p λ z. (_, refl, kept)
    addr-Returns (Node.deref i l) s p kept = expr-Returns l s p kept
    addr-Returns _ s p kept = elim p [ ]

    pub expr-Returns :
        (n : Node) (s : Gen)
        → IsExpr (length vars) n
        → s.locals ≡ vars
        → Returns vars (emit_expr n s)
    expr-Returns (Node.num i n) s p kept = (_, refl, kept)
    expr-Returns (Node.str i n) s p kept = (_, refl, kept)
    expr-Returns (Node.var i v) s p kept =
        offset_ok vars s v _ kept p.0
          λ z. type_ok vars i _ p.1 λ t. (_, refl, emit_load-locals t _ ∙ kept)
    expr-Returns (Node.deref i l) s p kept =
        then_ok vars (emit_expr l s) _ (expr-Returns l s p.0 kept)
          λ s' kept'. type_ok vars i _ p.1 λ t. (_, refl, emit_load-locals t s' ∙ kept')
    expr-Returns (Node.addr i l) s p kept = addr-Returns l s p kept
    expr-Returns (Node.cast i l) s p kept =
        then_ok vars (emit_expr l s) _ (expr-Returns l s p.0 kept)
          λ s' kept'. type_ok vars i _ p.1 λ t. (_, refl, emit_cast-locals t s' ∙ kept')
    expr-Returns (Node.assign i l r) s p kept =
        then_ok vars (emit_addr l s) _ (addr-Returns l s p.0 kept) λ s₁ kept₁.
          then_ok vars (emit_expr r (emit_push s₁)) _ (expr-Returns r (emit_push s₁) p.1 kept₁)
            λ s₂ kept₂. type_ok vars i _ p.2 λ t. (_, refl, kept₂)
    expr-Returns (Node.neg i l) s p kept =
        then_ok vars (emit_expr l s) _ (expr-Returns l s p kept) λ s' kept'. (_, refl, kept')
    expr-Returns (Node.logical_not i l) s p kept =
        then_ok vars (emit_expr l s) _ (expr-Returns l s p kept) λ s' kept'. (_, refl, kept')
    expr-Returns (Node.logical_and i l r) s p kept =
        then_ok vars (emit_expr l (count s)) _ (expr-Returns l (count s) p.0 kept) λ s₁ kept₁.
          then_ok vars (emit_expr r (test_je s.label_id s₁)) _
            (expr-Returns r (test_je s.label_id s₁) p.1 kept₁) λ s₂ kept₂. (_, refl, kept₂)
    expr-Returns (Node.logical_or i l r) s p kept =
        then_ok vars (emit_expr l (count s)) _ (expr-Returns l (count s) p.0 kept) λ s₁ kept₁.
          then_ok vars (emit_expr r (test_jne s.label_id s₁)) _
            (expr-Returns r (test_jne s.label_id s₁) p.1 kept₁) λ s₂ kept₂. (_, refl, kept₂)
    expr-Returns (Node.binary k i l r) s p kept =
        then_ok vars (emit_expr r s) _ (expr-Returns r s p.1 kept) λ s₁ kept₁.
          then_ok vars (emit_expr l (emit_push s₁)) _ (expr-Returns l (emit_push s₁) p.0 kept₁)
            λ s₂ kept₂. (_, refl, emit_binary-locals k _ ∙ kept₂)
    expr-Returns (Node.call i f args) s p kept =
        let pad = align_pad s.depth (call_count_args args - reg_args (call_count_args args)) in
        then_ok vars (call_push_args args (open_pad pad s)) _
          (args-Returns args (open_pad pad s) p (open_pad-locals pad s ∙ kept))
          λ s₁ kept₁. (_, refl, close_call-locals _ pad _ ∙ (call_pop_args-locals _ s₁ ∙ kept₁))
    expr-Returns _ s p kept = elim p [ ]

    args-Returns :
        (ns : Nodes) (s : Gen)
        → AreExprs (length vars) ns
        → s.locals ≡ vars
        → Returns vars (call_push_args ns s)
    args-Returns nil s p kept = (s, refl, kept)
    args-Returns (cons n ns) s p kept =
        then_ok vars (call_push_args ns s) _ (args-Returns ns s p.1 kept) λ s₁ kept₁.
          then_ok vars (emit_expr n s₁) _ (expr-Returns n s₁ p.0 kept₁) λ s₂ kept₂. (_, refl, kept₂)
