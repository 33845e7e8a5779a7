-- ===== src/Sem/Typed.antt =====
-- Expressions that the switch of the analysis hands on.
use mathlib.Core.Path.{subst}
use ivan_cc.Prelude.{
  ℕ, Bool, true, false, not, ◌&&◌, ◌≡◌, refl, ◌⊎◌, inl, inr, Bool-cases, Outcome, ok, err, Error,
  >>=-eq-ok, ok-injective, if◌then◌else◌,
}
use ivan_cc.Ast.{CType, Info, Node, BinaryKind}
use ivan_cc.Gen.Accepts.{IsLvalue, IsExpr}
use ivan_cc.Sem.Shape.{IsBelow}
use ivan_cc.Sem.Types.{Scope, is_pointer, is_lvalue, base_of, node_type, check_call, scale_by}
use ivan_cc.Sem.Arith.{
  arith, arith_by, pointer_difference, pointer_left, pointer_right, line_of, is_sub,
}
use ivan_cc.Sem.Walk.{
  own_addr, own_deref, deref_by, deref_base, own_assign, assign_by, own_binary, var_type, sem_own,
  is_void, is_array,
}

-- What a test lets through.
if-ok {ℓ} :
    {A : Type ℓ} (c : Bool) (a b : Outcome A) (x : A)
    → (if c then a else b) ≡ ok x
    → (a ≡ ok x) ⊎ (b ≡ ok x)
if-ok true a b x h = inl h
if-ok false a b x h = inr h

guard-ok {ℓ} :
    {A : Type ℓ} (c : Bool) (a : Outcome A) (e : Error) (x : A)
    → (if c then a else err e) ≡ ok x
    → (c ≡ true) × (a ≡ ok x)
guard-ok true a e x h = (refl, h)
guard-ok false a e x h = cc

clash {ℓ κ} : {A : Type ℓ} {P : Type κ} {e : Error} {a : A} → err e ≡ ok a → P
clash h = cc

module _ (k : ℕ) where
  pub IsExpr-of : {n n' : Node} → ok n ≡ ok n' → IsExpr k n → IsExpr k n'
  IsExpr-of h p = subst (IsExpr k) (ok-injective h) p

  difference-IsExpr :
      (op : BinaryKind) (i : Info) (l r : Node) (t : CType) (n' : Node)
      → pointer_difference op i l r t ≡ ok n'
      → IsExpr k l
      → IsExpr k r
      → IsExpr k n'
  unfolding pointer_difference
  difference-IsExpr op i l r t n' h p q =
      let (c, h₁) = guard-ok (is_sub op) _ _ n' h in
      let (base, e, h₂) = >>=-eq-ok (base_of t) _ h₁ in IsExpr-of h₂ ((p, q), tt)

  right-IsExpr :
      (op : BinaryKind) (i : Info) (l r : Node) (t : CType) (n' : Node)
      → pointer_right op i l r t ≡ ok n'
      → IsExpr k l
      → IsExpr k r
      → IsExpr k n'
  unfolding pointer_right scale_by
  right-IsExpr op i l r t n' h p q = elim (Bool-cases (is_sub op)) [
    | inl c ↦ clash (rw c at h)
    | inr c ↦
        let (line, e, h₁) = >>=-eq-ok (line_of l) _ (rw c at h) in
        let (base, e', h₂) = >>=-eq-ok (base_of t) _ h₁ in IsExpr-of h₂ ((p, tt), q)
  ]

  left-IsExpr :
      (op : BinaryKind) (i : Info) (l r : Node) (t : CType) (n' : Node)
      → pointer_left op i l r t ≡ ok n'
      → IsExpr k l
      → IsExpr k r
      → IsExpr k n'
  unfolding pointer_left scale_by
  left-IsExpr op i l r t n' h p q =
      let (line, e, h₁) = >>=-eq-ok (line_of r) _ h in
      let (base, e', h₂) = >>=-eq-ok (base_of t) _ h₁ in IsExpr-of h₂ (p, (q, tt))

  arith_by-IsExpr :
      (op : BinaryKind) (i : Info) (l r : Node) (a b : CType) (n' : Node)
      → arith_by op i l r a b ≡ ok n'
      → IsExpr k l
      → IsExpr k r
      → IsExpr k n'
  unfolding arith_by
  arith_by-IsExpr op i l r a b n' h p q =
      elim (if-ok (not (is_pointer a) && not (is_pointer b)) _ _ n' h) [
        | inl e ↦ IsExpr-of e (p, q)
        | inr e ↦ elim (if-ok (is_pointer a && is_pointer b) _ _ n' e) [
          | inl d ↦ difference-IsExpr op i l r a n' d p q
          | inr d ↦ elim (if-ok (is_pointer b) _ _ n' d) [
            | inl x ↦ right-IsExpr op i l r b n' x p q
            | inr x ↦ left-IsExpr op i l r a n' x p q
          ]
        ]
      ]

  arith-IsExpr :
      (op : BinaryKind) (i : Info) (l r n' : Node)
      → arith op i l r ≡ ok n'
      → IsExpr k l
      → IsExpr k r
      → IsExpr k n'
  unfolding arith
  arith-IsExpr op i l r n' h p q =
      let (a, e, h₁) = >>=-eq-ok (node_type l) _ h in
      let (b, e', h₂) = >>=-eq-ok (node_type r) _ h₁ in arith_by-IsExpr op i l r a b n' h₂ p q

  binary-IsExpr :
      (op : BinaryKind) (i : Info) (l r n' : Node)
      → own_binary op i l r ≡ ok n'
      → IsExpr k l
      → IsExpr k r
      → IsExpr k n'
  binary-IsExpr BinaryKind.add i l r n' h p q = arith-IsExpr BinaryKind.add i l r n' h p q
  binary-IsExpr BinaryKind.sub i l r n' h p q = arith-IsExpr BinaryKind.sub i l r n' h p q
  binary-IsExpr _ i l r n' h p q = IsExpr-of h (p, q)

  lvalue : (l : Node) → is_lvalue l ≡ true → IsExpr k l → IsLvalue k l
  unfolding is_lvalue
  lvalue (Node.var i v) h p = p.0
  lvalue (Node.deref i l) h p = p.0
  lvalue _ h p = cc

  addr-IsExpr : (i : Info) (l n' : Node) → own_addr i l ≡ ok n' → IsExpr k l → IsExpr k n'
  unfolding own_addr
  addr-IsExpr i l n' h p =
      let (c, h₁) = guard-ok (is_lvalue l) _ _ n' h in
      let (t, e, h₂) = >>=-eq-ok (node_type l) _ h₁ in IsExpr-of h₂ (lvalue l c p)

  deref-IsExpr : (i : Info) (l n' : Node) → own_deref i l ≡ ok n' → IsExpr k l → IsExpr k n'
  unfolding own_deref deref_by deref_base
  deref-IsExpr i l n' h p =
      let (t, e, h₁) = >>=-eq-ok (node_type l) _ h in
      let (c, h₂) = guard-ok (is_pointer t) _ _ n' h₁ in
      let (base, e', h₃) = >>=-eq-ok (base_of t) _ h₂ in
      elim (Bool-cases (is_void base)) [
        | inl v ↦ clash (rw v at h₃)
        | inr v ↦ IsExpr-of (rw v at h₃) (p, (base, refl))
      ]

  assign-IsExpr :
      (i : Info) (l r n' : Node) → own_assign i l r ≡ ok n' → IsExpr k l → IsExpr k r → IsExpr k n'
  unfolding own_assign assign_by
  assign-IsExpr i l r n' h p q =
      let (c, h₁) = guard-ok (is_lvalue l) _ _ n' h in
      let (t, e, h₂) = >>=-eq-ok (node_type l) _ h₁ in
      elim (Bool-cases (is_array t)) [
        | inl v ↦ clash (rw v at h₂)
        | inr v ↦ IsExpr-of (rw v at h₂) (lvalue l c p, q, (t, refl))
      ]

  pub own-IsExpr : (sc : Scope) (n n' : Node) → sem_own sc n ≡ ok n' → IsBelow k n → IsExpr k n'
  unfolding sem_own
  own-IsExpr sc (Node.num i n) n' h p = IsExpr-of h tt
  own-IsExpr sc (Node.str i n) n' h p = IsExpr-of h tt
  own-IsExpr sc (Node.var i v) n' h p =
      let (t, e, h₁) = >>=-eq-ok (var_type sc v) _ h in IsExpr-of h₁ (p, (t, refl))
  own-IsExpr sc (Node.binary op i l r) n' h p = binary-IsExpr op i l r n' h p.0 p.1
  own-IsExpr sc (Node.neg i l) n' h p = IsExpr-of h p
  own-IsExpr sc (Node.logical_not i l) n' h p = IsExpr-of h p
  own-IsExpr sc (Node.addr i l) n' h p = addr-IsExpr i l n' h p
  own-IsExpr sc (Node.deref i l) n' h p = deref-IsExpr i l n' h p
  own-IsExpr sc (Node.cast i l) n' h p = IsExpr-of h p
  own-IsExpr sc (Node.sizeof i l) n' h p =
      let (t, e, h₁) = >>=-eq-ok (node_type l) _ h in IsExpr-of h₁ tt
  own-IsExpr sc (Node.logical_and i l r) n' h p = IsExpr-of h p
  own-IsExpr sc (Node.logical_or i l r) n' h p = IsExpr-of h p
  own-IsExpr sc (Node.assign i l r) n' h p = assign-IsExpr i l r n' h p.0 p.1
  own-IsExpr sc (Node.call i name args) n' h p =
      let (u, e, h₁) = >>=-eq-ok (check_call sc i name args) _ h in IsExpr-of h₁ p
  own-IsExpr sc _ n' h p = elim p [ ]
