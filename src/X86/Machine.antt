-- ===== src/X86/Machine.antt =====
-- A one-pass machine for the instructions that expressions of numbers use. It is no code of the repository: it states
-- what the processor's manual says of these instructions. Jumps go forward: a taken jump skips up to its label.
use ivan_cc.Prelude.{
  ℕ, ◌+◌, ◌-◌, ◌*◌, ◌/◌, ◌%◌, ◌^◌, Bool, true, false, not, ◌&&◌, ◌||◌, Option, none, some, List, [],
  ◌∷◌, ◌++◌, ◌≡◌, refl, ℤ, pos, negsuc, neg_part, pos_part, ◌/ℤ◌, ◌%ℤ◌, to_word, signed, ltb, leb,
  ◌==◌, if◌then◌else◌,
}
use ivan_cc.Prelude.Name.{Name, name_eq}
use ivan_cc.Asm.Types.{Reg, reg_num, Op, OperandKind, Operand, Item, instr}
use ivan_cc.Asm.Emit.{new}

pub record Flags : Type 0 where
  pub zf : Bool
  pub sf : Bool
  pub ovf : Bool

-- Registers hold patterns below 2 ^ 64. `flags` is `none` after an instruction whose flags are not modelled: what reads
-- them then is stuck. `seek` is the label of a taken jump.
pub record Machine : Type 0 where
  pub regs : Reg → ℕ
  pub flags : Option Flags
  pub stack : List ℕ
  pub seek : Option Name

unfoldable pub write : (Reg → ℕ) → Reg → ℕ → Reg → ℕ
unfolding reg_num
write f r v q = if reg_num r == reg_num q then v else f q

abbrev pub set_reg : Reg → ℕ → Machine → Machine
set_reg r v m = record m { regs = write m.regs r v; flags = none }

abbrev pub word_mod : ℕ
word_mod = 2 ^ 64

-- `cmp s, d`: the flags of d - s.
unfoldable pub compare_flags : ℕ → ℕ → Flags
compare_flags d s =
    let r = (d + word_mod - s) % word_mod in
    let neg_d = leb (2 ^ 63) d in
    let neg_s = leb (2 ^ 63) s in
    let neg_r = leb (2 ^ 63) r in
    record {
      zf = r == 0;
      sf = neg_r;
      ovf = (neg_d && not neg_s && not neg_r) || (not neg_d && neg_s && neg_r);
    }

abbrev pub bit : Bool → ℕ
bit b = if b then 1 else 0

abbrev pub differ : Bool → Bool → Bool
differ a b = if a then not b else b

-- The conditions of `sete`, `setne`, `setl` and `setle`.
unfoldable pub condition : Op → Flags → Option Bool
condition Op.sete f = some f.zf
condition Op.setne f = some (not f.zf)
condition Op.setl f = some (differ f.sf f.ovf)
condition Op.setle f = some (f.zf || differ f.sf f.ovf)
condition _ f = none

-- The low byte of `r` is written and the rest stays.
abbrev pub set_low : Reg → ℕ → Machine → Machine
set_low r b m = record m { regs = write m.regs r (m.regs r / 256 * 256 + b) }

-- The signed reading of the pair %rdx:%rax.
unfoldable pub signed_pair : ℕ → ℕ → ℤ
signed_pair hi lo =
    if ltb hi (2 ^ 63)
    then pos (hi * word_mod + lo)
    else negsuc ((word_mod - 1 - hi) * word_mod + (word_mod - 1 - lo))

abbrev pub in_range : ℤ → Bool
in_range (pos n) = ltb n (2 ^ 63)
in_range (negsuc n) = ltb n (2 ^ 63)

abbrev pub is_zero : ℤ → Bool
is_zero z = pos_part z + neg_part z == 0

-- `idiv`: the fault of a zero divisor or of a quotient out of range is `none`.
unfoldable pub idiv : ℕ → Machine → Option Machine
idiv d m =
    let a = signed_pair (m.regs Reg.rdx) (m.regs Reg.rax) in
    let b = signed 64 d in
    if is_zero b
    then none
    else if in_range (a /ℤ b)
    then some (record m {
      regs = write (write m.regs Reg.rax (to_word 64 (a /ℤ b))) Reg.rdx (to_word 64 (a %ℤ b));
      flags = none;
    })
    else none

-- A source that is a register or an immediate.
unfoldable pub source : Operand → Machine → Option ℕ
source o m = elim o.kind [
  | OperandKind.reg ↦ some (m.regs o.reg)
  | OperandKind.imm ↦ some (to_word 64 o.imm)
  | _ ↦ none
]

abbrev pub and_then {ℓ κ} : {A : Type ℓ} {B : Type κ} → Option A → (A → Option B) → Option B
and_then none f = none
and_then (some a) f = f a

abbrev pub jump_if : Bool → Name → Machine → Machine
jump_if true label m = record m { seek = some label }
jump_if false label m = m

unfoldable pub run_instr : Op → Operand → Operand → Machine → Option Machine
unfolding source condition
run_instr Op.mov dst src m =
    and_then (source src m) λ v. some (record m { regs = write m.regs dst.reg v })
run_instr Op.movsx dst src m =
    let x = m.regs src.reg % 2 ^ src.width in
    some (record m { regs = write m.regs dst.reg (to_word 64 (signed src.width x)) })
run_instr Op.push dst src m = some (record m { stack = m.regs dst.reg ∷ m.stack })
run_instr Op.pop dst src m = elim m.stack [
  | [] ↦ none
  | v ∷ rest ↦ some (record m { regs = write m.regs dst.reg v; stack = rest })
]
run_instr Op.add dst src m =
    and_then (source src m) λ v. some (set_reg dst.reg ((m.regs dst.reg + v) % word_mod) m)
run_instr Op.sub dst src m =
    and_then (source src m)
      λ v. some (set_reg dst.reg ((m.regs dst.reg + word_mod - v) % word_mod) m)
run_instr Op.imul dst src m =
    and_then (source src m) λ v. some (set_reg dst.reg (m.regs dst.reg * v % word_mod) m)
run_instr Op.idiv dst src m = idiv (m.regs dst.reg) m
run_instr Op.cqo dst src m =
    let hi = if ltb (m.regs Reg.rax) (2 ^ 63) then 0 else word_mod - 1 in
    some (record m { regs = write m.regs Reg.rdx hi })
run_instr Op.neg dst src m = some (set_reg dst.reg ((word_mod - m.regs dst.reg) % word_mod) m)
run_instr Op.cmp dst src m =
    and_then (source src m) λ v. some (record m { flags = some (compare_flags (m.regs dst.reg) v) })
run_instr Op.sete dst src m =
    and_then m.flags λ f. and_then (condition Op.sete f) λ b. some (set_low dst.reg (bit b) m)
run_instr Op.setne dst src m =
    and_then m.flags λ f. and_then (condition Op.setne f) λ b. some (set_low dst.reg (bit b) m)
run_instr Op.setl dst src m =
    and_then m.flags λ f. and_then (condition Op.setl f) λ b. some (set_low dst.reg (bit b) m)
run_instr Op.setle dst src m =
    and_then m.flags λ f. and_then (condition Op.setle f) λ b. some (set_low dst.reg (bit b) m)
run_instr Op.movzb dst src m =
    some (record m { regs = write m.regs dst.reg (m.regs src.reg % 256) })
run_instr Op.jmp dst src m = some (jump_if true dst.label m)
run_instr Op.je dst src m = and_then m.flags λ f. some (jump_if f.zf dst.label m)
run_instr Op.jne dst src m = and_then m.flags λ f. some (jump_if (not f.zf) dst.label m)
run_instr _ dst src m = none

-- One item of the list, where no jump is pending.
unfoldable pub run_item : Item → Machine → Option Machine
unfolding run_instr
run_item (instr op dst src) m = run_instr op dst src m
run_item (Item.label name) m = some m
run_item _ m = none

-- A pending jump skips everything but its label.
unfoldable pub skip_item : Name → Item → Machine → Machine
skip_item target (Item.label name) m = if name_eq name target then record m { seek = none } else m
skip_item target _ m = m

unfoldable pub step : Item → Machine → Option Machine
unfolding skip_item
step item m = elim m.seek [ none ↦ run_item item m | some target ↦ some (skip_item target item m) ]

unfoldable pub exec : List Item → Machine → Option Machine
exec [] m = some m
exec (item ∷ items) m = and_then (step item m) (exec items)

pub exec-append :
    (xs ys : List Item) (m : Machine) → exec (xs ++ ys) m ≡ and_then (exec xs m) (exec ys)
unfolding exec
exec-append [] ys m = refl
exec-append (x ∷ xs) ys m = go (step x m) (exec-append xs ys)
  where
    go :
        (o : Option Machine)
        → ((m' : Machine) → exec (xs ++ ys) m' ≡ and_then (exec xs m') (exec ys))
        → and_then o (exec (xs ++ ys)) ≡ and_then (and_then o (exec xs)) (exec ys)
    go none ih = refl
    go (some m') ih = ih m'

exec-one : (item : Item) (m : Machine) → exec (item ∷ []) m ≡ step item m
unfolding exec
exec-one item m = go (step item m)
  where
    go : (o : Option Machine) → and_then o (exec []) ≡ o
    go none = refl
    go (some m') = refl

-- What running a list and then one more item does.
pub exec-new :
    (item : Item) (items : List Item) (m₀ m : Machine)
    → exec items m₀ ≡ some m
    → exec (new item items) m₀ ≡ step item m
unfolding new
exec-new item items m₀ m e = rw (exec-append, e) (exec-one item m)
