-- ===== src/Gen/Slots.antt =====
-- The slots that Gen_x86_64_AssignLvarOffsets gives to the locals of a function.
use mathlib.Core.Path.{subst}
use ivan_cc.Prelude.{
  ℕ, zero, suc, ◌+◌, ◌-◌, ◌*◌, ◌%◌, ◌≤◌, ◌<◌, ◌^◌, true, some, List, [], ◌∷◌, ◌≡◌, refl, ℤ, pos,
  ◌-ℤ◌, get_elem?, arith,
}
use ivan_cc.Ast.{CType, Var, Func, at_size, at_align}
use ivan_cc.Gen.State.{align_to, stack_align}
use ivan_cc.Gen.Frame.{next_offset, assign_offsets, frame_end, fits_frame, assign_lvar_offsets}
use mathlib.Core.Option.{some-injective}
use native.Mathlib.Nat.{mul-mod_left, lt-div-mul-add}

pub at_align-positive : (t : CType) → 0 < at_align t
unfolding at_align
at_align-positive CType.void = omega arith
at_align-positive CType.char = omega arith
at_align-positive CType.int = omega arith
at_align-positive (CType.ptr _) = omega arith
at_align-positive (CType.array base _) = at_align-positive base

multiple_of : (q a : ℕ) → 0 < a → q * a % a ≡ 0
multiple_of q a h = mul-mod_left q a

align_to-le : (n a : ℕ) → 0 < a → n ≤ align_to n a
unfolding align_to
align_to-le n a h = let l = lt-div-mul-add {a = (n + a - 1)} {b = a} h in omega arith

align_to-multiple : (n a : ℕ) → 0 < a → align_to n a % a ≡ 0
unfolding align_to
align_to-multiple n a h = multiple_of _ a h

abbrev below : ℕ → ℤ
below k = pos 0 -ℤ pos k

-- The variable has the bytes from -k(%rbp) up to, at most, -lo(%rbp).
pub record Slot (v : Var) (lo k : ℕ) : Type 0 where
  pub place : v.offset ≡ below k
  pub room : lo + at_size v.type ≤ k
  pub aligned : k % at_align v.type ≡ 0

next_offset-le : (off : ℕ) (v : Var) → off + at_size v.type ≤ next_offset off v
unfolding next_offset
next_offset-le off v = align_to-le _ _ (at_align-positive v.type)

next_offset-aligned : (off : ℕ) (v : Var) → next_offset off v % at_align v.type ≡ 0
unfolding next_offset
next_offset-aligned off v = align_to-multiple _ _ (at_align-positive v.type)

frame_end-le : (off : ℕ) (vars : List Var) → off ≤ frame_end off vars
unfolding frame_end
frame_end-le off [] = omega arith
frame_end-le off (v ∷ vars) =
    let a = next_offset-le off v in let b = frame_end-le (next_offset off v) vars in omega arith

new-Slot :
    (off : ℕ) (v : Var)
    → Slot (record v { offset = below (next_offset off v) }) off (next_offset off v)
new-Slot off v = record {
  place = refl;
  room = next_offset-le off v;
  aligned = next_offset-aligned off v;
}

Slot-at :
    (off : ℕ) (vars : List Var) (j : ℕ) (w : Var)
    → get_elem? (assign_offsets off vars) j ≡ some w
    → (k : ℕ) × Slot w off k × (k ≤ frame_end off vars)
unfolding assign_offsets frame_end
Slot-at off [] j w h = cc
Slot-at off (v ∷ vars) zero w h =
    let n = next_offset off v in
    (n, subst (λ x. Slot x off n) (some-injective _ _ h) (new-Slot off v), frame_end-le n vars)
Slot-at off (v ∷ vars) (suc j) w h =
    let (k, s, e) = Slot-at (next_offset off v) vars j w h in
    let a = next_offset-le off v in
    let room = s.room in (k, record { place = s.place; room = omega arith; aligned = s.aligned }, e)

-- A variable's slot is above those of the variables after it.
slots :
    (off : ℕ) (vars : List Var) (i j : ℕ) (v w : Var)
    → i < j
    → get_elem? (assign_offsets off vars) i ≡ some v
    → get_elem? (assign_offsets off vars) j ≡ some w
    → (a : ℕ) × (b : ℕ) × Slot v off a × Slot w a b × (b ≤ frame_end off vars)
unfolding assign_offsets frame_end
slots off [] i j v w l h h' = cc
slots off (x ∷ vars) i zero v w l h h' = absurd (omega arith)
slots off (x ∷ vars) zero (suc j) v w l h h' =
    let (b, t, e) = Slot-at (next_offset off x) vars j w h' in
    let n = next_offset off x in
    (n, b, subst (λ y. Slot y off n) (some-injective _ _ h) (new-Slot off x), t, e)
slots off (x ∷ vars) (suc i) (suc j) v w l h h' =
    let (a, b, s, t, e) = slots (next_offset off x) vars i j v w (omega arith) h h' in
    let n = next_offset-le off x in
    let room = s.room in
    (a, b, record { place = s.place; room = omega arith; aligned = s.aligned }, t, e)

stack_size-int :
    (vars : List Var) (off : ℕ)
    → fits_frame off vars ≡ true
    → align_to (frame_end off vars) stack_align < 2 ^ 31
unfolding fits_frame frame_end align_to
stack_size-int [] off f = ground arith
stack_size-int (v ∷ vars) off f = stack_size-int vars (next_offset off v) (ground arith)

-- Where the sizes and the sums of the loop are ints, the frame is one too. Of two locals of a function, the earlier
-- has its bytes below %rbp and the later has its bytes below those of the earlier, so they share none; each lies at a
-- multiple of its alignment, and both inside `stack_size` bytes.
pub assign_lvar_offsets-disjoint :
    (func : Func) (i j : ℕ) (v w : Var)
    → fits_frame 0 func.locals ≡ true
    → i < j
    → get_elem? (assign_lvar_offsets func).locals i ≡ some v
    → get_elem? (assign_lvar_offsets func).locals j ≡ some w
    → (a : ℕ) × (b : ℕ) × Slot v 0 a
      × Slot w a b
      × (b ≤ (assign_lvar_offsets func).stack_size)
      × ((assign_lvar_offsets func).stack_size < 2 ^ 31)
unfolding assign_lvar_offsets
assign_lvar_offsets-disjoint func i j v w f l h h' =
    let (a, b, s, t, e) = slots 0 func.locals i j v w l h h' in
    let e' = align_to-le (frame_end 0 func.locals) stack_align (omega arith) in
    (a, b, s, t, omega arith, stack_size-int func.locals 0 f)
