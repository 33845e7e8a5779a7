-- ===== src/X86/Stack.antt =====
-- The height of the stack along a list of instructions. It is no code of the repository: it states what the manual says
-- of %rsp, and the rule of the System V ABI that %rsp is a multiple of 16 at every call.
use ivan_cc.Prelude.{
  true, ℕ, zero, suc, ◌+◌, ◌-◌, ◌/◌, ◌%◌, Bool, false, ◌&&◌, Option, none, some, List, [], ◌∷◌,
  ◌++◌, ◌≡◌, refl, pos, negsuc, leb, ◌==◌, if◌then◌else◌, arith,
}
use ivan_cc.Prelude.Name.{Name}
use ivan_cc.Asm.Types.{Reg, reg_num, Op, OperandKind, Operand, Item, instr}
use ivan_cc.Asm.Emit.{new}
use ivan_cc.X86.Machine.{and_then}

-- `words`: the 8-byte words from a multiple of 16 down to %rsp, with the return address; `frame`: the words down to the
-- place that %rbp points at, from `mov %rsp, %rbp` until %rbp is popped.
pub record Height : Type 0 where
  pub words : ℕ
  pub frame : ℕ

abbrev pub is_reg : Reg → Operand → Bool
is_reg r o = elim o.kind [ OperandKind.reg ↦ reg_num o.reg == reg_num r | _ ↦ false ]

-- %rsp moves by an immediate number of bytes, a multiple of 8.
abbrev pub grow : Operand → Height → Option Height
grow src h = elim src.kind [
  | OperandKind.imm ↦ elim src.imm [
    | pos n ↦ if n % 8 == 0 then some (record h { words = h.words + n / 8 }) else none
    | negsuc n ↦ none
  ]
  | _ ↦ none
]

abbrev pub shrink : Operand → Height → Option Height
shrink src h = elim src.kind [
  | OperandKind.imm ↦ elim src.imm [
    | pos n ↦
        if n % 8 == 0 && leb (n / 8) h.words
        then some (record h { words = h.words - n / 8 })
        else none
    | negsuc n ↦ none
  ]
  | _ ↦ none
]

-- `mov` into %rsp or %rbp is followed only between these two.
abbrev pub move : Operand → Operand → Height → Option Height
move dst src h =
    if is_reg Reg.rbp dst
    then if is_reg Reg.rsp src then some (record h { frame = h.words }) else none
    else if is_reg Reg.rsp dst
    then if is_reg Reg.rbp src then some (record h { words = h.frame }) else none
    else some h

-- Another write to %rsp or %rbp is not followed.
abbrev pub other : Operand → Height → Option Height
other dst h = if is_reg Reg.rsp dst then none else if is_reg Reg.rbp dst then none else some h

-- The height with which control comes to each label.
abbrev pub Labels : Type 0
Labels = Name → Height

-- A jump, or the code in front of a label, has the height of the label.
abbrev pub arrive : Labels → Name → Height → Option Height
arrive at l h = if h.words == (at l).words && h.frame == (at l).frame then some h else none

unfoldable pub track_instr : Labels → Op → Operand → Operand → Height → Option Height
unfolding reg_num
track_instr at Op.push dst src h = some (record h { words = h.words + 1 })
track_instr at Op.pop dst src h = elim h.words [
  | zero ↦ none
  | suc n ↦ some (record h { words = n })
]
track_instr at Op.add dst src h = if is_reg Reg.rsp dst then shrink src h else other dst h
track_instr at Op.sub dst src h = if is_reg Reg.rsp dst then grow src h else other dst h
track_instr at Op.mov dst src h = move dst src h
track_instr at Op.call dst src h = if h.words % 2 == 0 then some h else none
track_instr at Op.ret dst src h = if h.words == 1 then some h else none
track_instr at Op.jmp dst src h = arrive at dst.label h
track_instr at Op.je dst src h = arrive at dst.label h
track_instr at Op.jne dst src h = arrive at dst.label h
track_instr at Op.cmp dst src h = some h
track_instr at Op.idiv dst src h = some h
track_instr at _ dst src h = other dst h

unfoldable pub track_item : Labels → Item → Height → Option Height
unfolding track_instr
track_item at (instr op dst src) h = track_instr at op dst src h
track_item at (Item.label l) h = arrive at l h
track_item at _ h = some h

-- The height after a list, `none` where a call is misaligned, a pop underflows, or a jump or the code in front of a label
-- has another height than the label. So every way through the list, jumps taken or not, has at each place the height
-- that is followed here; the code behind a `jmp` is followed with the height of the jump.
unfoldable pub track : Labels → List Item → Height → Option Height
track at [] h = some h
track at (item ∷ items) h = and_then (track_item at item h) (track at items)

track-append :
    (at : Labels) (xs ys : List Item) (h : Height)
    → track at (xs ++ ys) h ≡ and_then (track at xs h) (track at ys)
unfolding track
track-append at [] ys h = refl
track-append at (x ∷ xs) ys h = go (track_item at x h) (track-append at xs ys)
  where
    go :
        (o : Option Height)
        → ((h' : Height) → track at (xs ++ ys) h' ≡ and_then (track at xs h') (track at ys))
        → and_then o (track at (xs ++ ys)) ≡ and_then (and_then o (track at xs)) (track at ys)
    go none ih = refl
    go (some h') ih = ih h'

track-one : (at : Labels) (item : Item) (h : Height) → track at (item ∷ []) h ≡ track_item at item h
unfolding track
track-one at item h = go (track_item at item h)
  where
    go : (o : Option Height) → and_then o (track at []) ≡ o
    go none = refl
    go (some h') = refl

pub track-new :
    (at : Labels) (item : Item) (items : List Item) (h₀ h : Height)
    → track at items h₀ ≡ some h
    → track at (new item items) h₀ ≡ track_item at item h
unfolding new
track-new at item items h₀ h e = rw (track-append, e) (track-one at item h)

-- Control may come to a label with its height.
pub arrive-at : (at : Labels) (l : Name) (h : Height) → at l ≡ h → arrive at l h ≡ some h
arrive-at at l h e = rw (e, eq_refl h.words, eq_refl h.frame) refl
  where
    eq_refl : (n : ℕ) → (n == n) ≡ true
    eq_refl n = ground arith
