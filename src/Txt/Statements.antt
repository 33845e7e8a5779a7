-- ===== src/Txt/Statements.antt =====
-- The mnemonic and the operands of a printable instruction.
use mathlib.Core.Path.{subst}
use ivan_cc.Prelude.{◌==◌, false, [], ◌∷◌, ◌++◌, ◌≡◌, refl, ap, sym, arith, inl, inr, ◌⊎◌}
use ivan_cc.Prelude.Name.{text}
use ivan_cc.Asm.Types.{
  Width, width_none, width_8, width_32, Op, OperandKind, Operand, no_operand, Item,
}
use ivan_cc.Txt.Names.{op_name}
use ivan_cc.Txt.Write.{write_operand, mnemonic, operands_text, is_none, is_movsx}
use ivan_cc.Txt.Instr.{instr_of}
use ivan_cc.Txt.Printable.{
  PrintsOperand, register, immediate, memory, relative, symbol, PrintsInstr, nullary, unary, binary,
  extend, plain, plain_of, reading,
}
use ivan_cc.Txt.Operands.{write_operand-Reads}
use ivan_cc.Txt.Mnemonics.{Mnemonic, movs-Mnemonic, op_name-Mnemonic}
use ivan_cc.Txt.Arguments.{Operands, no_operands, one_operand, two_operands}

PrintsOperand-kind : (o : Operand) → PrintsOperand o → is_none o.kind ≡ false
PrintsOperand-kind o (register r w e h) = ap (λ z. is_none z.kind) e
PrintsOperand-kind o (immediate v e h) = ap (λ z. is_none z.kind) e
PrintsOperand-kind o (memory r d w e h) = ap (λ z. is_none z.kind) e
PrintsOperand-kind o (relative l e h) = ap (λ z. is_none z.kind) e
PrintsOperand-kind o (symbol l e h) = ap (λ z. is_none z.kind) e

operands_text-two :
    (dst src : Operand)
    → PrintsOperand dst
    → PrintsOperand src
    → operands_text dst src ≡ b' ' ∷ (write_operand src ++ (text ", " ++ write_operand dst))
unfolding operands_text
operands_text-two dst src d s = rw (PrintsOperand-kind dst d, PrintsOperand-kind src s) refl

operands_text-one :
    (dst : Operand) → PrintsOperand dst → operands_text dst no_operand ≡ b' ' ∷ write_operand dst
unfolding operands_text
operands_text-one dst d = rw (PrintsOperand-kind dst d) refl

-- The width of a sign extension is that of its source.
with_width : (k : OperandKind) (o : Operand) → record (plain_of k o) { width = o.width } ≡ o
with_width OperandKind.mem o = refl
with_width _ o = refl

-- A printable instruction: its mnemonic and its operands.
pub record Statement (op : Op) (dst src : Operand) : Type 0 where
  pub width : Width
  pub mnem : Mnemonic op width (mnemonic op src)
  pub operands : Operands op width (reading (Item.instr op dst src)) (operands_text dst src)

plain_mnemonic : (op : Op) (src : Operand) → is_movsx op ≡ false → mnemonic op src ≡ op_name op
unfolding mnemonic
plain_mnemonic op src h = rw h refl

plain-Statement :
    (op : Op) (dst src : Operand)
    → is_movsx op ≡ false
    → Operands op width_none (Item.instr op (plain dst) (plain src)) (operands_text dst src)
    → Statement op dst src
plain-Statement op dst src h x = record {
  width = width_none;
  mnem = subst (Mnemonic op width_none) (sym (plain_mnemonic op src h)) (op_name-Mnemonic op h);
  operands = subst (λ z. Operands op width_none z (operands_text dst src)) (sym item) x;
}
  where
    item : reading (Item.instr op dst src) ≡ Item.instr op (plain dst) (plain src)
    item = unfold reading in rw h refl

nullary-Statement : (op : Op) → is_movsx op ≡ false → Statement op no_operand no_operand
unfolding operands_text
nullary-Statement op h = plain-Statement op no_operand no_operand h (no_operands op)

unary-Statement :
    (op : Op) (dst : Operand)
    → is_movsx op ≡ false
    → PrintsOperand dst
    → Statement op dst no_operand
unary-Statement op dst h d = plain-Statement op dst no_operand h (
    subst (Operands op width_none (Item.instr op (plain dst) no_operand))
      (sym (operands_text-one dst d))
      (one_operand op (write_operand dst) (plain dst) (write_operand-Reads dst d)))

both :
    (op : Op) (w : Width) (dst src : Operand)
    → PrintsOperand dst
    → PrintsOperand src
    → Operands op w (instr_of op w (plain src ∷ plain dst ∷ [])) (operands_text dst src)
both op w dst src d s =
    subst (Operands op w (instr_of op w (plain src ∷ plain dst ∷ [])))
      (sym (operands_text-two dst src d s))
      (two_operands op w (write_operand src) (write_operand dst) (plain src) (plain dst)
        (write_operand-Reads src s) (write_operand-Reads dst d))

wide :
    (src dst : Operand)
    → (src.width ≡ width_8) ⊎ (src.width ≡ width_32)
    → instr_of Op.movsx src.width (plain src ∷ plain dst ∷ []) ≡ Item.instr Op.movsx (plain dst) src
unfolding instr_of
wide src dst h = rw (not_none h) (ap (Item.instr Op.movsx (plain dst)) (with_width src.kind src))
  where
    not_none : (src.width ≡ width_8) ⊎ (src.width ≡ width_32) → (src.width == width_none) ≡ false
    not_none (inl e) = ground arith
    not_none (inr e) = ground arith

extend-Statement :
    (dst src : Operand)
    → (src.width ≡ width_8) ⊎ (src.width ≡ width_32)
    → PrintsOperand dst
    → PrintsOperand src
    → Statement Op.movsx dst src
unfolding reading
extend-Statement dst src w d s = record {
  width = src.width;
  mnem = movs-Mnemonic src w;
  operands =
      subst (λ z. Operands Op.movsx src.width z (operands_text dst src)) (wide src dst w)
        (both Op.movsx src.width dst src d s);
}

pub PrintsInstr-Statement :
    (op : Op) (dst src : Operand) → PrintsInstr op dst src → Statement op dst src
PrintsInstr-Statement op dst src (nullary h d s) = rw (d, s) (nullary-Statement op h)
PrintsInstr-Statement op dst src (unary h d s) = rw s (unary-Statement op dst h d)
PrintsInstr-Statement op dst src (binary h d s) =
    plain-Statement op dst src h (unfold instr_of in both op width_none dst src d s)
PrintsInstr-Statement op dst src (extend e w d s) = rw e (extend-Statement dst src w d s)
