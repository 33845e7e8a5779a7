-- ===== src/Sem/Checked.antt =====
-- Whole programs that pass the analysis.
use mathlib.Core.Path.{subst}
use ivan_cc.Prelude.{
  ℕ, List, [], ◌∷◌, ◌≡◌, sym, ◌∙◌, ap, inl, inr, All, length, ok, >>=-eq-ok, ok-injective,
}
use ivan_cc.Ast.{Node, Nodes, nil, cons, Func}
use ivan_cc.Gen.State.{Gen}
use ivan_cc.Gen.Accepts.{IsExpr, AreExprs}
use ivan_cc.Gen.Program.{build_program}
use ivan_cc.Gen.Returns.{OrNull, IsStmt, AreStmts, IsFunc, build_program_returns}
use ivan_cc.Sem.Shape.{IsTree, AreTrees, IsBelow, IsBody, AreBodies, IsParsed}
use ivan_cc.Sem.Types.{Scope}
use ivan_cc.Sem.Walk.{sem_own, sem_below, sem_nodes, sem_node, analyze, analyze_from}
use ivan_cc.Sem.Typed.{own-IsExpr}

module _ (sc : Scope) (k : ℕ) where
  IsBelow-of : {n n' : Node} → ok n ≡ ok n' → IsBelow k n → IsBelow k n'
  IsBelow-of h p = subst (IsBelow k) (ok-injective h) p

  up :
      (n n' : Node)
      → ((n₁ : Node) → sem_below sc n ≡ ok n₁ → IsBelow k n₁)
      → sem_node sc n ≡ ok n'
      → IsExpr k n'
  up n n' below h =
      let (n₁, e, h₁) = >>=-eq-ok (sem_below sc n) _ h in own-IsExpr k sc n₁ n' h₁ (below n₁ e)

  mutual
    unfolding sem_below

    sem_below-IsBelow : (n n' : Node) → sem_below sc n ≡ ok n' → IsTree k n → IsBelow k n'
    sem_below-IsBelow (Node.num i n) n' h p = IsBelow-of h p
    sem_below-IsBelow (Node.str i n) n' h p = IsBelow-of h p
    sem_below-IsBelow (Node.var i v) n' h p = IsBelow-of h p
    sem_below-IsBelow (Node.binary op i l r) n' h p =
        let (l', e, h₁) = >>=-eq-ok (sem_node sc l) _ h in
        let (r', e', h₂) = >>=-eq-ok (sem_node sc r) _ h₁ in
        IsBelow-of h₂ (
          up l l' (λ m h'. sem_below-IsBelow l m h' p.0) e,
          up r r' (λ m h'. sem_below-IsBelow r m h' p.1) e',
        )
    sem_below-IsBelow (Node.neg i l) n' h p =
        let (l', e, h₁) = >>=-eq-ok (sem_node sc l) _ h in
        IsBelow-of h₁ (up l l' (λ m h'. sem_below-IsBelow l m h' p) e)
    sem_below-IsBelow (Node.logical_not i l) n' h p =
        let (l', e, h₁) = >>=-eq-ok (sem_node sc l) _ h in
        IsBelow-of h₁ (up l l' (λ m h'. sem_below-IsBelow l m h' p) e)
    sem_below-IsBelow (Node.addr i l) n' h p =
        let (l', e, h₁) = >>=-eq-ok (sem_node sc l) _ h in
        IsBelow-of h₁ (up l l' (λ m h'. sem_below-IsBelow l m h' p) e)
    sem_below-IsBelow (Node.deref i l) n' h p =
        let (l', e, h₁) = >>=-eq-ok (sem_node sc l) _ h in
        IsBelow-of h₁ (up l l' (λ m h'. sem_below-IsBelow l m h' p) e)
    sem_below-IsBelow (Node.cast i l) n' h p =
        let (l', e, h₁) = >>=-eq-ok (sem_node sc l) _ h in
        IsBelow-of h₁ (up l l' (λ m h'. sem_below-IsBelow l m h' p.0) e, p.1)
    sem_below-IsBelow (Node.sizeof i l) n' h p =
        let (l', e, h₁) = >>=-eq-ok (sem_node sc l) _ h in
        IsBelow-of h₁ (up l l' (λ m h'. sem_below-IsBelow l m h' p) e)
    sem_below-IsBelow (Node.logical_and i l r) n' h p =
        let (l', e, h₁) = >>=-eq-ok (sem_node sc l) _ h in
        let (r', e', h₂) = >>=-eq-ok (sem_node sc r) _ h₁ in
        IsBelow-of h₂ (
          up l l' (λ m h'. sem_below-IsBelow l m h' p.0) e,
          up r r' (λ m h'. sem_below-IsBelow r m h' p.1) e',
        )
    sem_below-IsBelow (Node.logical_or i l r) n' h p =
        let (l', e, h₁) = >>=-eq-ok (sem_node sc l) _ h in
        let (r', e', h₂) = >>=-eq-ok (sem_node sc r) _ h₁ in
        IsBelow-of h₂ (
          up l l' (λ m h'. sem_below-IsBelow l m h' p.0) e,
          up r r' (λ m h'. sem_below-IsBelow r m h' p.1) e',
        )
    sem_below-IsBelow (Node.assign i l r) n' h p =
        let (l', e, h₁) = >>=-eq-ok (sem_node sc l) _ h in
        let (r', e', h₂) = >>=-eq-ok (sem_node sc r) _ h₁ in
        IsBelow-of h₂ (
          up l l' (λ m h'. sem_below-IsBelow l m h' p.0) e,
          up r r' (λ m h'. sem_below-IsBelow r m h' p.1) e',
        )
    sem_below-IsBelow (Node.call i name args) n' h p =
        let (as', e, h₁) = >>=-eq-ok (sem_nodes sc args) _ h in
        IsBelow-of h₁ (nodes-AreExprs args as' e p)
    sem_below-IsBelow _ n' h p = elim p [ ]

    nodes-AreExprs : (ns ns' : Nodes) → sem_nodes sc ns ≡ ok ns' → AreTrees k ns → AreExprs k ns'
    nodes-AreExprs nil ns' h p = subst (AreExprs k) (ok-injective h) tt
    nodes-AreExprs (cons n ns) ns' h p =
        let (n₁, e₁, h₁) = >>=-eq-ok (sem_below sc n) _ h in
        let (ns₂, e₂, h₂) = >>=-eq-ok (sem_nodes sc ns) _ h₁ in
        let (n₃, e₃, h₃) = >>=-eq-ok (sem_own sc n₁) _ h₂ in
        subst (AreExprs k) (ok-injective h₃)
          (own-IsExpr k sc n₁ n₃ e₃ (sem_below-IsBelow n n₁ e₁ p.0), nodes-AreExprs ns ns₂ e₂ p.1)

  node-IsExpr : (n n' : Node) → sem_node sc n ≡ ok n' → IsTree k n → IsExpr k n'
  node-IsExpr n n' h p = up n n' (λ m e. sem_below-IsBelow n m e p) h

  -- NULL stays NULL.
  or_null-IsExpr :
      (n n' : Node) → sem_node sc n ≡ ok n' → OrNull n (IsTree k n) → OrNull n' (IsExpr k n')
  unfolding sem_below sem_own
  or_null-IsExpr n n' h (inl e) = inl (sym (ok-injective (sym (ap (sem_node sc) e) ∙ h)))
  or_null-IsExpr n n' h (inr p) = inr (node-IsExpr n n' h p)

  -- The switch leaves a statement as it is.
  own-IsStmt : (n n' : Node) → sem_own sc n ≡ ok n' → IsStmt k n → IsStmt k n'
  unfolding sem_own
  own-IsStmt (Node.return_stmt i l) n' h p = subst (IsStmt k) (ok-injective h) p
  own-IsStmt (Node.if_stmt i c t e) n' h p = subst (IsStmt k) (ok-injective h) p
  own-IsStmt (Node.for_stmt i init c inc body) n' h p = subst (IsStmt k) (ok-injective h) p
  own-IsStmt (Node.block i body) n' h p = subst (IsStmt k) (ok-injective h) p
  own-IsStmt (Node.expr_stmt i l) n' h p = subst (IsStmt k) (ok-injective h) p
  own-IsStmt (Node.nop i) n' h p = subst (IsStmt k) (ok-injective h) p
  own-IsStmt _ n' h p = elim p [ ]

  up-IsStmt :
      (n n' : Node)
      → ((n₁ : Node) → sem_below sc n ≡ ok n₁ → IsStmt k n₁)
      → sem_node sc n ≡ ok n'
      → IsStmt k n'
  up-IsStmt n n' below h =
      let (n₁, e, h₁) = >>=-eq-ok (sem_below sc n) _ h in own-IsStmt n₁ n' h₁ (below n₁ e)

  IsStmt-of : {n n' : Node} → ok n ≡ ok n' → IsStmt k n → IsStmt k n'
  IsStmt-of h p = subst (IsStmt k) (ok-injective h) p

  mutual
    unfolding sem_below sem_own

    sem_below-IsStmt : (n n' : Node) → sem_below sc n ≡ ok n' → IsBody k n → IsStmt k n'
    sem_below-IsStmt (Node.return_stmt i l) n' h p =
        let (l', e, h₁) = >>=-eq-ok (sem_node sc l) _ h in IsStmt-of h₁ (or_null-IsExpr l l' e p)
    sem_below-IsStmt (Node.if_stmt i c t e) n' h p =
        let (c', h₁, k₁) = >>=-eq-ok (sem_node sc c) _ h in
        let (t', h₂, k₂) = >>=-eq-ok (sem_node sc t) _ k₁ in
        let (e', h₃, k₃) = >>=-eq-ok (sem_node sc e) _ k₂ in
        let last : OrNull e' (IsStmt k e') = elim p.2 [
          | inl z ↦ inl (sym (ok-injective (sym (ap (sem_node sc) z) ∙ h₃)))
          | inr q ↦ inr (up-IsStmt e e' (λ m g. sem_below-IsStmt e m g q) h₃)
        ] in
        IsStmt-of k₃
          (node-IsExpr c c' h₁ p.0, up-IsStmt t t' (λ m g. sem_below-IsStmt t m g p.1) h₂, last)
    sem_below-IsStmt (Node.for_stmt i init c inc body) n' h p =
        let (c', h₁, k₁) = >>=-eq-ok (sem_node sc c) _ h in
        let (init', h₂, k₂) = >>=-eq-ok (sem_node sc init) _ k₁ in
        let (inc', h₃, k₃) = >>=-eq-ok (sem_node sc inc) _ k₂ in
        let (body', h₄, k₄) = >>=-eq-ok (sem_node sc body) _ k₃ in
        IsStmt-of k₄ (
          or_null-IsExpr init init' h₂ p.0,
          or_null-IsExpr c c' h₁ p.1,
          or_null-IsExpr inc inc' h₃ p.2,
          up-IsStmt body body' (λ m g. sem_below-IsStmt body m g p.3) h₄,
        )
    sem_below-IsStmt (Node.block i body) n' h p =
        let (b', e, h₁) = >>=-eq-ok (sem_nodes sc body) _ h in
        IsStmt-of h₁ (nodes-AreStmts body b' e p)
    sem_below-IsStmt (Node.expr_stmt i l) n' h p =
        let (l', e, h₁) = >>=-eq-ok (sem_node sc l) _ h in IsStmt-of h₁ (node-IsExpr l l' e p)
    sem_below-IsStmt (Node.nop i) n' h p = IsStmt-of h tt
    sem_below-IsStmt _ n' h p = elim p [ ]

    nodes-AreStmts : (ns ns' : Nodes) → sem_nodes sc ns ≡ ok ns' → AreBodies k ns → AreStmts k ns'
    nodes-AreStmts nil ns' h p = subst (AreStmts k) (ok-injective h) tt
    nodes-AreStmts (cons n ns) ns' h p =
        let (n₁, e₁, h₁) = >>=-eq-ok (sem_below sc n) _ h in
        let (ns₂, e₂, h₂) = >>=-eq-ok (sem_nodes sc ns) _ h₁ in
        let (n₃, e₃, h₃) = >>=-eq-ok (sem_own sc n₁) _ h₂ in
        subst (AreStmts k) (ok-injective h₃)
          (own-IsStmt n₁ n₃ e₃ (sem_below-IsStmt n n₁ e₁ p.0), nodes-AreStmts ns ns₂ e₂ p.1)

from-IsFunc :
    (prog : List Func) (strings : List (List ℕ)) (rest rest' : List Func)
    → All IsParsed rest
    → analyze_from prog strings rest ≡ ok rest'
    → All IsFunc rest'
unfolding analyze_from
from-IsFunc prog strings [] rest' p h = subst (All IsFunc) (ok-injective h) tt
from-IsFunc prog strings (func ∷ rest) rest' p h =
    let sc : Scope = record { prog = prog; strings = strings; locals = func.locals } in
    let k = length func.locals in
    let (body, e, h₁) = >>=-eq-ok (sem_node sc func.body) _ h in
    let (rest₂, e₂, h₂) = >>=-eq-ok (analyze_from prog strings rest) _ h₁ in
    let stmt = up-IsStmt sc k func.body body (λ m g. sem_below-IsStmt sc k func.body m g p.0.0) e in
    subst (All IsFunc) (ok-injective h₂)
      ((stmt, p.0.1, p.0.2, p.0.3), from-IsFunc prog strings rest rest₂ p.1 e₂)

-- On functions as the parser makes them, where no two parameters have one name and the sizes and offsets of the locals
-- are ints, the analysis lets through only functions that are well formed for the code
-- generator: where it reads a type there is one, no `sizeof` is left, and an address is taken of a variable or of `*`
-- alone. So the generator returns on its result, from any state.
pub analyze-build_program :
    (strings : List (List ℕ)) (prog prog' : List Func) (s : Gen)
    → All IsParsed prog
    → analyze strings prog ≡ ok prog'
    → All IsFunc prog' × ((s' : Gen) × (build_program prog' s ≡ ok s'))
unfolding analyze
analyze-build_program strings prog prog' s p h =
    let q = from-IsFunc prog strings prog prog' p h in (q, build_program_returns prog' s q)
