-- ===== src/Txt/Instr.antt =====
-- Txt_x86_64_Att_ParseInstr of src/arch/x86_64/txt.c.
use ivan_cc.Prelude.{
  ℕ, ◌-◌, ◌==◌, leb, Bool, not, ◌&&◌, ◌||◌, if◌then◌else◌, Option, none, some, List, [], ◌∷◌, ◌++◌,
  length, get_elem?, take, Outcome, ok, err, ◌>>=◌, bad_mnemonic, unknown_mnemonic,
  too_many_operands, bad_operand,
}
use ivan_cc.Prelude.Name.{Name, text, name_eq}
use ivan_cc.Asm.Types.{Op, Width, width_none, width_8, width_32, Operand, no_operand, Item}
use ivan_cc.Asm.Emit.{new}
use ivan_cc.Str.Chars.{is_blank, take_while, drop_while, null}
use ivan_cc.Str.Split.{split}
use ivan_cc.Str.Trim.{trim}
use ivan_cc.Txt.Names.{op_by_name}
use ivan_cc.Txt.Operand.{parse_operand}

unfoldable pub movsx_width : Name → Width
movsx_width mnem =
    if name_eq mnem (text "movsbq")
    then width_8
    else if name_eq mnem (text "movslq")
    then width_32
    else width_none

abbrev is_size_suffix : ℕ → Bool
is_size_suffix c = c == b'b' || c == b'w' || c == b'l' || c == b'q'

-- The mnemonic without a size suffix.
unfoldable pub unsuffixed : Name → Option Name
unsuffixed mnem = elim (get_elem? mnem (length mnem - 1)) [
  | none ↦ none
  | some c ↦
      if leb 2 (length mnem) && is_size_suffix c then some (take (length mnem - 1) mnem) else none
]

-- The second try at a mnemonic that the table does not have.
abbrev or_unsuffixed : Name → Option Op → Option Op
or_unsuffixed mnem (some op) = some op
or_unsuffixed mnem none = elim (unsuffixed mnem) [ none ↦ none | some short ↦ op_by_name short ]

unfoldable pub resolve_op : Name → Option Op
unfolding movsx_width unsuffixed
resolve_op mnem =
    if movsx_width mnem == width_none then or_unsuffixed mnem (op_by_name mnem) else some Op.movsx

-- The loop over the operands, behind those in `ops`.
unfoldable pub parse_parts : Name → List Name → List Operand → Outcome (List Operand)
parse_parts line [] ops = ok ops
parse_parts line (part ∷ parts) ops =
    let skipped = parse_parts line parts ops in
    if null (trim part)
    then skipped
    else if leb 2 (length ops)
    then err (too_many_operands line)
    else elim (parse_operand (trim part)) [
      | none ↦ err (bad_operand (trim part))
      | some op ↦ parse_parts line parts (ops ++ op ∷ [])
    ]

abbrev pub parse_rest : Name → Name → Outcome (List Operand)
parse_rest line rest = if null rest then ok [] else parse_parts line (split rest (text ",")) []

-- The item: AT&T text has the source first.
unfoldable pub instr_of : Op → Width → List Operand → Item
instr_of op width [] = Item.instr op no_operand no_operand
instr_of op width (dst ∷ []) = Item.instr op dst no_operand
instr_of op width (src ∷ dst ∷ more) =
    Item.instr op dst (if width == width_none then src else record src { width = width })

abbrev pub resolved : Name → Option Op → Outcome Op
resolved mnem none = err (unknown_mnemonic mnem)
resolved mnem (some op) = ok op

abbrev pub mnemonic_of : Name → Name
mnemonic_of line = take_while (λ c. not (is_blank c)) line

abbrev pub bad_length : Name → Bool
bad_length mnem = length mnem == 0 || leb 32 (length mnem)

-- The item of a mnemonic and of the text behind it.
unfoldable pub finish_instr : Name → Name → Name → List Item → Outcome (List Item)
unfolding parse_parts resolve_op instr_of
finish_instr line mnem rest items = if bad_length mnem then err (bad_mnemonic line) else do
  op ← resolved mnem (resolve_op mnem)
  ops ← parse_rest line (drop_while is_blank rest)
  ok (new (instr_of op (movsx_width mnem) ops) items)

unfoldable pub parse_instr : Name → List Item → Outcome (List Item)
unfolding finish_instr
parse_instr line items =
    finish_instr line (mnemonic_of line) (drop_while (λ c. not (is_blank c)) line) items
