-- ===== src/Txt/Mnemonics.antt =====
-- The mnemonics of the writer, and the opcodes that the parser resolves them to.
use ivan_cc.Prelude.{true, false, ◌≡◌, refl, some, inl, inr, ◌⊎◌}
use ivan_cc.Prelude.Name.{Name}
use ivan_cc.Asm.Types.{Width, width_none, width_8, width_32, Op, Operand}
use ivan_cc.Str.Chars.{is_alpha, all, null}
use ivan_cc.Txt.Names.{op_name, op_by_name}
use ivan_cc.Txt.Write.{mnemonic, is_movsx}
use ivan_cc.Txt.Instr.{movsx_width, resolve_op, bad_length}

-- A mnemonic that stands for `op`, with the width of a sign extension.
pub record Mnemonic (op : Op) (w : Width) (m : Name) : Type 0 where
  pub some_text : null m ≡ false
  pub alpha : all is_alpha m ≡ true
  pub fine : bad_length m ≡ false
  pub resolved : resolve_op m ≡ some op
  pub width : movsx_width m ≡ w

pub op_name-Mnemonic : (op : Op) → is_movsx op ≡ false → Mnemonic op width_none (op_name op)
unfolding op_name is_alpha resolve_op op_by_name
op_name-Mnemonic Op.movsx h = cc
op_name-Mnemonic _ h = record {
  some_text = refl;
  alpha = refl;
  fine = refl;
  resolved = refl;
  width = refl;
}

pub movs-Mnemonic :
    (src : Operand)
    → (src.width ≡ width_8) ⊎ (src.width ≡ width_32)
    → Mnemonic Op.movsx src.width (mnemonic Op.movsx src)
unfolding mnemonic is_alpha resolve_op op_by_name
movs-Mnemonic src (inl e) =
    rw e (record { some_text = refl; alpha = refl; fine = refl; resolved = refl; width = refl })
movs-Mnemonic src (inr e) =
    rw e (record { some_text = refl; alpha = refl; fine = refl; resolved = refl; width = refl })
