-- ===== src/Txt/Line.antt =====
-- Txt_x86_64_Att_ParseLine and Parse of src/arch/x86_64/txt.c.
use ivan_cc.Prelude.{
  ℕ, zero, suc, ◌==◌, Bool, false, not, ◌&&◌, if◌then◌else◌, none, some, List, [], ◌∷◌, length,
  Outcome, ok, ◌>>=◌,
}
use ivan_cc.Prelude.Name.{Name, text}
use ivan_cc.Asm.Types.{Item}
use ivan_cc.Asm.Emit.{reset, emit_label}
use ivan_cc.Str.Chars.{null}
use ivan_cc.Str.Split.{split}
use ivan_cc.Str.Trim.{trim}
use ivan_cc.Txt.Pattern.{match_label}
use ivan_cc.Txt.Instr.{parse_instr}
use ivan_cc.Txt.Directive.{parse_directive}

-- The line up to a `#` outside quotes.
unfoldable pub strip_comment : Bool → Name → Name
strip_comment inq [] = []
strip_comment inq (c ∷ line) =
    let rest = strip_comment (if c == b'"' then not inq else inq) line in
    if c == b'#' && not inq then [] else c ∷ rest

-- The last two branches, by the first character.
unfoldable pub parse_statement : Name → List Item → Outcome (List Item)
parse_statement [] items = ok items
parse_statement (c ∷ cs) items =
    if c == b'.' then parse_directive (c ∷ cs) items else parse_instr (c ∷ cs) items

-- The text of a line, trimmed. What is behind a label is a line `again`.
unfoldable pub dispatch :
    (Name → List Item → Outcome (List Item)) → Name → List Item → Outcome (List Item)
dispatch again t items = if null t then ok items else elim (match_label t) [
  | none ↦ parse_statement t items
  | some m ↦ if null m.1 then ok (emit_label m.0 items) else again m.1 (emit_label m.0 items)
]

-- The line behind a label is shorter: the fuel is the length of the line and one more.
unfoldable pub parse_line_fuel : ℕ → Name → List Item → Outcome (List Item)
parse_line_fuel zero line items = ok items
parse_line_fuel (suc f) line items =
    dispatch (parse_line_fuel f) (trim (strip_comment false line)) items

unfoldable pub parse_line : Name → List Item → Outcome (List Item)
unfolding parse_line_fuel
parse_line line = parse_line_fuel (suc (length line)) line

unfoldable pub parse_lines : List Name → List Item → Outcome (List Item)
unfolding parse_line
parse_lines [] items = ok items
parse_lines (line ∷ lines) items = do items' ← parse_line line items; parse_lines lines items'

unfoldable pub parse : Name → Outcome (List Item)
unfolding parse_lines
parse t = parse_lines (split t (text "\n")) reset
