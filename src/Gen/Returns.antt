-- ===== src/Gen/Returns.antt =====
-- Statements, functions and programs that the code generator accepts.
use mathlib.Core.Path.{subst}
use ivan_cc.Prelude.{
  false, true, ℕ, suc, ◌+◌, ◌<◌, Option, none, some, List, [], ◌∷◌, ◌≡◌, refl, sym, ◌∙◌, ap, length,
  get_elem?, Outcome, ok, err, ◌>>=◌, null_pointer, All, ◌⊎◌, inl, inr, ◌==◌,
}
use ivan_cc.Prelude.Name.{Name, text}
use ivan_cc.Ast.{Node, Nodes, nil, cons, Var, Func}
use ivan_cc.Asm.Types.{Reg}
use ivan_cc.Asm.Emit
use ivan_cc.Gen.State.{Gen, asm, count, arg_reg, else_label, endif_label, begin_label}
use ivan_cc.Gen.Expr.{emit_expr}
use ivan_cc.Gen.Stmt.{
  emit_stmt, emit_stmts, emit_condition, emit_result, unless_null, jump_if_zero, jump_return,
}
use ivan_cc.Gen.Frame.{fits_frame, check_frame, assign_lvar_offsets, assign_offsets, next_offset}
use ivan_cc.Gen.Program.{
  has_circle, check_params, emit_function, emit_functions, emit_text_section, spill_from,
  spill_param, spill_params, var_at, emit_prologue, emit_epilogue, build_program,
}
use ivan_cc.Gen.Accepts.{IsExpr, Returns, then_ok, bound, expr-Returns, if-locals}

-- A child that may be NULL.
abbrev pub OrNull : Node → Type 0 → Type 0
OrNull n P = (n ≡ Node.null) ⊎ P

abbrev mutual
  pub IsStmt : ℕ → Node → Type 0
  IsStmt k (Node.return_stmt i l) = OrNull l (IsExpr k l)
  IsStmt k (Node.if_stmt i c t e) = IsExpr k c × IsStmt k t × OrNull e (IsStmt k e)
  IsStmt k (Node.for_stmt i init c inc body) =
      OrNull init (IsExpr k init)
      × OrNull c (IsExpr k c)
      × OrNull inc (IsExpr k inc)
      × IsStmt k body
  IsStmt k (Node.block i body) = AreStmts k body
  IsStmt k (Node.expr_stmt i l) = IsExpr k l
  IsStmt k (Node.nop i) = Unit
  IsStmt k _ = ⊥

  pub AreStmts : ℕ → Nodes → Type 0
  AreStmts k nil = Unit
  AreStmts k (cons n ns) = IsStmt k n × AreStmts k ns

-- The body is a statement over the locals, the parameters are among them, none of them twice, and the frame is an int.
abbrev pub IsFunc : Func → Type 0
IsFunc func =
    IsStmt (length func.locals) func.body
    × All (λ v. v < length func.locals) func.params
    × (has_circle func.params ≡ false)
    × (fits_frame 0 func.locals ≡ true)

module _ (vars : List Var) where
  unless_null-Returns :
      (n : Node) (k : Gen → Outcome Gen) (s : Gen)
      → OrNull n (Returns vars (k s))
      → s.locals ≡ vars
      → Returns vars (unless_null n k s)
  unfolding unless_null
  unless_null-Returns Node.null k s h kept = (s, refl, kept)
  unless_null-Returns _ k s h kept = elim h [ inl e ↦ cc | inr r ↦ r ]

  result-Returns :
      (n : Node) (s : Gen)
      → OrNull n (IsExpr (length vars) n)
      → s.locals ≡ vars
      → Returns vars (emit_result n s)
  unfolding emit_result
  result-Returns Node.null s h kept = (_, refl, kept)
  result-Returns n s h kept = elim h [ inl e ↦ cc | inr p ↦ expr-Returns vars n s p kept ]

  condition-Returns :
      (id : ℕ) (n : Node) (s : Gen)
      → OrNull n (IsExpr (length vars) n)
      → s.locals ≡ vars
      → Returns vars (emit_condition id n s)
  unfolding emit_condition jump_if_zero
  condition-Returns id Node.null s h kept = (s, refl, kept)
  condition-Returns id n s h kept = elim h [
    | inl e ↦ cc
    | inr p ↦
        then_ok vars (emit_expr n s) _ (expr-Returns vars n s p kept) λ s' kept'. (_, refl, kept')
  ]

  or_null : (n : Node) (P Q : Type 0) → (P → Q) → OrNull n P → OrNull n Q
  or_null n P Q f (inl e) = inl e
  or_null n P Q f (inr p) = inr (f p)

  mutual
    unfolding emit_stmt jump_if_zero jump_return

    stmt-Returns :
        (n : Node) (s : Gen)
        → IsStmt (length vars) n
        → s.locals ≡ vars
        → Returns vars (emit_stmt n s)
    stmt-Returns (Node.return_stmt i l) s p kept =
        then_ok vars (emit_result l s) _ (result-Returns l s p kept) λ s' kept'. (_, refl, kept')
    stmt-Returns (Node.if_stmt i c t e) s p kept =
        let id = s.label_id in
        then_ok vars (emit_expr c (count s)) _ (expr-Returns vars c (count s) p.0 kept) λ s₁ kept₁.
          let a = jump_if_zero (else_label id) s₁ in
          then_ok vars (emit_stmt t a) _ (stmt-Returns t a p.1 kept₁) λ s₂ kept₂.
            let b =
              asm (Emit.emit_label (else_label id)) (asm (Emit.emit_jmp (endif_label id)) s₂) in
            let branch : OrNull e (Returns vars (emit_stmt e b)) = elim p.2 [
              | inl z ↦ inl z
              | inr q ↦ inr (stmt-Returns e b q kept₂)
            ] in
            then_ok vars (unless_null e (emit_stmt e) b) _
              (unless_null-Returns e (emit_stmt e) b branch kept₂) λ s₄ kept₄. (_, refl, kept₄)
    stmt-Returns (Node.for_stmt i init c inc body) s p kept =
        let id = s.label_id in
        let k = length vars in
        then_ok vars (unless_null init (emit_expr init) (count s)) _
          (unless_null-Returns init (emit_expr init) (count s)
            (or_null init (IsExpr k init) _ (λ q. expr-Returns vars init (count s) q kept) p.0)
            kept)
          λ s₁ kept₁.
            let a = asm (Emit.emit_label (begin_label id)) s₁ in
            then_ok vars (emit_condition id c a) _ (condition-Returns id c a p.1 kept₁) λ s₂ kept₂.
              then_ok vars (emit_stmt body s₂) _ (stmt-Returns body s₂ p.3 kept₂) λ s₃ kept₃.
                then_ok vars (unless_null inc (emit_expr inc) s₃) _
                  (unless_null-Returns inc (emit_expr inc) s₃
                    (or_null inc (IsExpr k inc) _ (λ q. expr-Returns vars inc s₃ q kept₃) p.2)
                    kept₃)
                  λ s₄ kept₄. (_, refl, kept₄)
    stmt-Returns (Node.block i body) s p kept = stmts-Returns body s p kept
    stmt-Returns (Node.expr_stmt i l) s p kept = expr-Returns vars l s p kept
    stmt-Returns (Node.nop i) s p kept = (s, refl, kept)
    stmt-Returns _ s p kept = elim p [ ]

    stmts-Returns :
        (ns : Nodes) (s : Gen)
        → AreStmts (length vars) ns
        → s.locals ≡ vars
        → Returns vars (emit_stmts ns s)
    stmts-Returns nil s p kept = (s, refl, kept)
    stmts-Returns (cons n ns) s p kept =
        then_ok vars (emit_stmt n s) _ (stmt-Returns n s p.0 kept)
          λ s₁ kept₁. stmts-Returns ns s₁ p.1 kept₁

spill_from-locals :
    (o : Option Reg) (i : ℕ) (v : Var) (s : Gen) → (spill_from o i v s).locals ≡ s.locals
unfolding spill_from
spill_from-locals (some r) i v s = refl
spill_from-locals none i v s = refl

var_at-ok : (s : Gen) (p : ℕ) (v : Var) → get_elem? s.locals p ≡ some v → var_at s p ≡ ok v
unfolding var_at
var_at-ok s p v h =
    ap (λ o. elim o as (λ z. Outcome Var) [ none ↦ err null_pointer | some x ↦ ok x ]) h

epilogue-locals : (name : Name) (s : Gen) → (emit_epilogue name s).locals ≡ s.locals
unfolding emit_epilogue
epilogue-locals name s = refl

params-Returns :
    (vars : List Var) (i : ℕ) (ps : List ℕ) (s : Gen)
    → All (λ v. v < length vars) ps
    → s.locals ≡ vars
    → Returns vars (spill_params i ps s)
unfolding spill_params spill_param
params-Returns vars i [] s h kept = (s, refl, kept)
params-Returns vars i (p ∷ ps) s h kept =
    let (v, e) = bound vars p h.0 in
    let e' : get_elem? s.locals p ≡ some v = ap (λ (xs : List Var). get_elem? xs p) kept ∙ e in
    let s₁ = spill_from (get_elem? arg_reg i) i v s in
    let (s', r, kept') =
      params-Returns vars (i + 1) ps s₁ h.1
        (spill_from-locals (get_elem? arg_reg i) i v s ∙ kept) in
    (
      s',
      ap (λ o. o >>= λ x. spill_params (i + 1) ps (spill_param i x s)) (var_at-ok s p v e') ∙ r,
      kept',
    )

length-assign_offsets : (off : ℕ) (vars : List Var) → length (assign_offsets off vars) ≡ length vars
unfolding assign_offsets
length-assign_offsets off [] = refl
length-assign_offsets off (v ∷ vars) = ap suc (length-assign_offsets (next_offset off v) vars)

prologue-locals : (k : ℕ) (s : Gen) → (emit_prologue k s).locals ≡ s.locals
unfolding emit_prologue
prologue-locals k s = if-locals (k == 0) _ _ s.locals refl refl

-- The checks let a function through.
check-ok :
    (locals : List Var) (params : List ℕ)
    → has_circle params ≡ false
    → fits_frame 0 locals ≡ true
    → (rest : Unit {0} → Outcome Gen)
    → (check_frame locals >>= λ _. check_params params >>= rest) ≡ rest tt
unfolding check_frame check_params
check-ok locals params c f rest = rw (c, f) refl

function_returns :
    (func : Func) (s : Gen) → IsFunc func → (s' : Gen) × (emit_function func s ≡ ok s')
unfolding emit_function assign_lvar_offsets
function_returns func s p =
    let f = assign_lvar_offsets func in
    let vars = f.locals in
    let same : length func.locals ≡ length vars = sym (length-assign_offsets 0 func.locals) in
    let s₂ =
      asm (Emit.emit_label f.name)
        (asm (Emit.emit_globl f.name) (record s { curr_func = f.name; locals = vars })) in
    let body = subst (λ k. IsStmt k func.body) same p.0 in
    let params = subst (λ k. All (λ v. v < k) func.params) same p.1 in
    let checked = check-ok func.locals func.params p.2 p.3 (λ u.
      spill_params 0 func.params (emit_prologue f.stack_size s₂) >>= λ a.
      emit_stmt func.body a >>= λ b. ok (emit_epilogue f.name b)) in
    let s₃ = emit_prologue f.stack_size s₂ in
    let (s', e, kept) =
      then_ok vars (spill_params 0 func.params s₃)
        (λ a. emit_stmt func.body a >>= λ b. ok (emit_epilogue f.name b))
        (params-Returns vars 0 func.params s₃ params (prologue-locals f.stack_size s₂))
        λ a kept.
          then_ok vars (emit_stmt func.body a) _ (stmt-Returns vars func.body a body kept)
            λ b kept'. (emit_epilogue f.name b, refl, epilogue-locals f.name b ∙ kept') in
    (s', checked ∙ e)

functions_return :
    (prog : List Func) (s : Gen) → All IsFunc prog → (s' : Gen) × (emit_functions prog s ≡ ok s')
unfolding emit_functions
functions_return [] s p = (s, refl)
functions_return (func ∷ prog) s p =
    let (s₁, e) = function_returns func s p.0 in
    let (s₂, e') = functions_return prog s₁ p.1 in (s₂, ap (λ o. o >>= emit_functions prog) e ∙ e')

-- The code generator returns on every list of functions that are well formed: each body is a statement in which every
-- node has its type where the generator reads it, every variable is one of the function's locals and an address is taken
-- of a variable or of `*`, each parameter is one of the locals, none is there twice, and the sizes and offsets of the
-- locals are ints.
pub build_program_returns :
    (prog : List Func) (s : Gen) → All IsFunc prog → (s' : Gen) × (build_program prog s ≡ ok s')
unfolding build_program emit_text_section
build_program_returns prog s p =
    let (s', e) = functions_return prog _ p in
    (
      _,
      ap
          (λ o. o >>= λ x.
            ok (asm (Emit.emit_directive (text ".section .note.GNU-stack,\"\",@progbits")) x))
          e,
    )
