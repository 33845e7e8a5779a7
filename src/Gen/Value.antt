-- ===== src/Gen/Value.antt =====
-- What an expression of numbers means in C, over the integers: an independent description of what the generated code
-- computes. `none` is a value that C leaves undefined here: a result outside 64 bits, or a division by zero.
use ivan_cc.Prelude.{
  ◌+◌, Bool, true, false, not, Option, none, some, ◌≡◌, refl, inl, inr, Bool-cases, ℤ, pos, negsuc,
  pos_part, neg_part, ◌+ℤ◌, ◌-ℤ◌, ◌*ℤ◌, ◌/ℤ◌, ◌%ℤ◌, ltb_ℤ, leb_ℤ, to_word, signed, Fits, ◌==◌,
  if◌then◌else◌, arith,
}
use mathlib.Core.Option.{some-injective}
use mathlib.Core.Path.{subst}
use ivan_cc.Ast.{CType, Node, BinaryKind}
use ivan_cc.X86.Machine.{and_then, in_range, is_zero}

-- The operators and casts over numbers: no variable, string, call, address or assignment.
abbrev pub IsArith : Node → Type 0
IsArith (Node.num i n) = Unit
IsArith (Node.binary k i l r) = IsArith l × IsArith r
IsArith (Node.neg i l) = IsArith l
IsArith (Node.logical_not i l) = IsArith l
IsArith (Node.cast i l) = ((t : CType) × (i.type ≡ some t)) × IsArith l
IsArith (Node.logical_and i l r) = IsArith l × IsArith r
IsArith (Node.logical_or i l r) = IsArith l × IsArith r
IsArith _ = ⊥

abbrev pub fit : ℤ → Option ℤ
fit z = if in_range z then some z else none

abbrev pub truth : Bool → ℤ
truth b = if b then pos 1 else pos 0

-- One operator on the values of its operands.
unfoldable pub eval_binary : BinaryKind → ℤ → ℤ → Option ℤ
eval_binary BinaryKind.add a b = fit (a +ℤ b)
eval_binary BinaryKind.sub a b = fit (a -ℤ b)
eval_binary BinaryKind.mul a b = fit (a *ℤ b)
eval_binary BinaryKind.div a b = if is_zero b then none else fit (a /ℤ b)
eval_binary BinaryKind.modulo a b =
    if is_zero b then none else if in_range (a /ℤ b) then fit (a %ℤ b) else none
eval_binary BinaryKind.eq a b = some (truth (pos_part a + neg_part b == pos_part b + neg_part a))
eval_binary BinaryKind.ne a b =
    some (truth (not (pos_part a + neg_part b == pos_part b + neg_part a)))
eval_binary BinaryKind.lt a b = some (truth (ltb_ℤ a b))
eval_binary BinaryKind.le a b = some (truth (leb_ℤ a b))

-- A conversion to `char` or `int` keeps the low bits; other types are as wide as a register.
abbrev pub eval_cast : CType → ℤ → ℤ
eval_cast CType.char a = signed 8 (to_word 8 a)
eval_cast CType.int a = signed 32 (to_word 32 a)
eval_cast _ a = a

abbrev pub cast_value : Option CType → ℤ → Option ℤ
cast_value none a = none
cast_value (some t) a = some (eval_cast t a)

-- What `&&` and `||` make of their right operand.
abbrev pub truth_value : ℤ → Option ℤ
truth_value b = some (truth (not (is_zero b)))

unfoldable pub eval : Node → Option ℤ
unfolding eval_binary
eval (Node.num i n) = fit n
eval (Node.binary k i l r) = and_then (eval l) λ a. and_then (eval r) λ b. eval_binary k a b
eval (Node.neg i l) = and_then (eval l) λ a. fit (pos 0 -ℤ a)
eval (Node.logical_not i l) = and_then (eval l) λ a. some (truth (is_zero a))
eval (Node.cast i l) = and_then (eval l) (cast_value i.type)
eval (Node.logical_and i l r) =
    let right = and_then (eval r) truth_value in
    and_then (eval l) λ a. if is_zero a then some (pos 0) else right
eval (Node.logical_or i l r) =
    let right = and_then (eval r) truth_value in
    and_then (eval l) λ a. if is_zero a then right else some (pos 1)
eval _ = none

if_some : (c : Bool) (z v : ℤ) → (if c then some z else none) ≡ some v → (c ≡ true) × (z ≡ v)
if_some true z v h = (refl, some-injective z v h)
if_some false z v h = cc

pub Fits-in_range : (z : ℤ) → in_range z ≡ true → Fits 64 z
Fits-in_range (pos n) h = ground arith
Fits-in_range (negsuc n) h = ground arith

-- A result that fits is the result, and is in range.
pub fit-eq : (z v : ℤ) → fit z ≡ some v → (z ≡ v) × Fits 64 v
fit-eq z v h = let (c, e) = if_some (in_range z) z v h in (e, Fits-in_range v (rw e at c))

pub and_then-eq-some {ℓ κ} :
    {A : Type ℓ} {B : Type κ} (m : Option A) (f : A → Option B) {b : B}
    → and_then m f ≡ some b
    → (a : A) × (m ≡ some a) × (f a ≡ some b)
and_then-eq-some none f h = cc
and_then-eq-some (some a) f h = (a, refl, h)

pub Fits-truth : (c : Bool) → Fits 64 (truth c)
Fits-truth true = omega arith
Fits-truth false = omega arith

Fits-cast : (t : CType) (a : ℤ) → Fits 64 a → Fits 64 (eval_cast t a)
Fits-cast CType.void a h = h
Fits-cast CType.char (pos a) h = ground arith
Fits-cast CType.char (negsuc a) h = ground arith
Fits-cast CType.int (pos a) h = ground arith
Fits-cast CType.int (negsuc a) h = ground arith
Fits-cast (CType.ptr t) a h = h
Fits-cast (CType.array t n) a h = h

-- A value that comes through a test says how the test came out.
pub unless_some :
    (c : Bool) {o : Option ℤ} {v : ℤ}
    → (if c then none else o) ≡ some v
    → (c ≡ false) × (o ≡ some v)
unless_some true h = cc
unless_some false h = (refl, h)

pub when_some :
    (c : Bool) {o : Option ℤ} {v : ℤ} → (if c then o else none) ≡ some v → (c ≡ true) × (o ≡ some v)
when_some true h = (refl, h)
when_some false h = cc

eval_binary-Fits : (k : BinaryKind) (a b v : ℤ) → eval_binary k a b ≡ some v → Fits 64 v
unfolding eval_binary
eval_binary-Fits BinaryKind.add a b v h = (fit-eq (a +ℤ b) v h).1
eval_binary-Fits BinaryKind.sub a b v h = (fit-eq (a -ℤ b) v h).1
eval_binary-Fits BinaryKind.mul a b v h = (fit-eq (a *ℤ b) v h).1
eval_binary-Fits BinaryKind.div a b v h = (fit-eq (a /ℤ b) v (unless_some (is_zero b) h).1).1
eval_binary-Fits BinaryKind.modulo a b v h =
    (fit-eq (a %ℤ b) v (when_some (in_range (a /ℤ b)) (unless_some (is_zero b) h).1).1).1
eval_binary-Fits BinaryKind.eq a b v h = subst (Fits 64) (some-injective _ _ h) (Fits-truth _)
eval_binary-Fits BinaryKind.ne a b v h = subst (Fits 64) (some-injective _ _ h) (Fits-truth _)
eval_binary-Fits BinaryKind.lt a b v h = subst (Fits 64) (some-injective _ _ h) (Fits-truth _)
eval_binary-Fits BinaryKind.le a b v h = subst (Fits 64) (some-injective _ _ h) (Fits-truth _)

Fits-truth_value : (o : Option ℤ) (v : ℤ) → and_then o truth_value ≡ some v → Fits 64 v
Fits-truth_value o v h =
    let (b, e, h') = and_then-eq-some o truth_value h in
    subst (Fits 64) (some-injective _ _ h') (Fits-truth _)

Fits-cast_value : (o : Option CType) (a v : ℤ) → Fits 64 a → cast_value o a ≡ some v → Fits 64 v
Fits-cast_value none a v f h = cc
Fits-cast_value (some t) a v f h = subst (Fits 64) (some-injective _ _ h) (Fits-cast t a f)

pub eval-Fits : (n : Node) (v : ℤ) → IsArith n → eval n ≡ some v → Fits 64 v
unfolding eval
eval-Fits (Node.num i n) v p h = (fit-eq n v h).1
eval-Fits (Node.binary k i l r) v p h =
    let (a, ea, h') = and_then-eq-some (eval l) _ h in
    let (b, eb, h'') = and_then-eq-some (eval r) _ h' in eval_binary-Fits k a b v h''
eval-Fits (Node.neg i l) v p h =
    let (a, ea, h') = and_then-eq-some (eval l) _ h in (fit-eq (pos 0 -ℤ a) v h').1
eval-Fits (Node.logical_not i l) v p h =
    let (a, ea, h') = and_then-eq-some (eval l) _ h in
    subst (Fits 64) (some-injective _ _ h') (Fits-truth _)
eval-Fits (Node.cast i l) v p h =
    let (a, ea, h') = and_then-eq-some (eval l) _ h in
    Fits-cast_value i.type a v (eval-Fits l a p.1 ea) h'
eval-Fits (Node.logical_and i l r) v p h =
    let (a, ea, h') = and_then-eq-some (eval l) _ h in
    elim (Bool-cases (is_zero a)) [
      | inl z ↦ subst (Fits 64) (some-injective (pos 0) v (rw z at h')) (omega arith)
      | inr nz ↦ Fits-truth_value (eval r) v (rw nz at h')
    ]
eval-Fits (Node.logical_or i l r) v p h =
    let (a, ea, h') = and_then-eq-some (eval l) _ h in
    elim (Bool-cases (is_zero a)) [
      | inl z ↦ Fits-truth_value (eval r) v (rw z at h')
      | inr nz ↦ subst (Fits 64) (some-injective (pos 1) v (rw nz at h')) (omega arith)
    ]
eval-Fits n v p h = elim p [ ]
