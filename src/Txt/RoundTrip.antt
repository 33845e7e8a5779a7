-- ===== src/Txt/RoundTrip.antt =====
-- The parser reads back the text of a list of items.
use mathlib.Core.Path.{subst}
use ivan_cc.Prelude.{
  ℕ, ◌<◌, true, List, [], ◌∷◌, ◌++◌, ◌≡◌, refl, ap, sym, ◌∙◌, All, inl, inr, Bool-cases,
  append_assoc, append-nil, ok, ◌>>=◌, map,
}
use ivan_cc.Prelude.Name.{Name, text, decimal, name_eq, eq_of_name_eq}
use ivan_cc.Asm.Types.{Op, Operand, Item}
use ivan_cc.Asm.Emit.{new}
use ivan_cc.Elf.Object.{sht_progbits}
use ivan_cc.Str.Chars.{drop_while, all, all-append}
use ivan_cc.Str.Split.{split}
use ivan_cc.Str.Trim.{trim}
use ivan_cc.Str.Pieces.{split-line}
use ivan_cc.Txt.Write.{mnemonic, operands_text, write_instr, write_bytes, write_item, write}
use ivan_cc.Txt.Line.{strip_comment, dispatch, parse_line, parse_lines, parse}
use ivan_cc.Txt.Printable.{
  Prints, PrintsInstr, is_symbol, reading, readings, pieces, file_directive, stack_directive,
}
use ivan_cc.Txt.Arguments.{no_newline}
use ivan_cc.Txt.Statements.{PrintsInstr-Statement}
use ivan_cc.Txt.Sentences.{parse_line-item, statement-one_line}
use ivan_cc.Txt.Lines.{
  is_symbol-Argument, decimal-Argument, Argument-one_line, label_line, globl_line, section_line,
  text_line, file_line, stack_line, byte_line,
}
use ivan_cc.Txt.Directive.{named_flags}

-- The items behind the first line of a text.
parse_lines-line :
    (l rest : Name) (items items' : List Item)
    → all no_newline l ≡ true
    → parse_line l items ≡ ok items'
    → parse_lines (split (l ++ b'\n' ∷ rest) (text "\n")) items
      ≡ parse_lines (split rest (text "\n")) items'
unfolding parse_lines
parse_lines-line l rest items items' h e =
    ap (λ z. parse_lines z items) (split-line b'\n' l rest h)
    ∙ ap (λ z. z >>= λ next. parse_lines (split rest (text "\n")) next) e

-- The parser goes over the text `t` with the items of `more`.
Reads : Name → List Item → Type 0
Reads t more =
    (rest : Name) (items : List Item)
    → parse_lines (split (t ++ rest) (text "\n")) items
      ≡ parse_lines (split rest (text "\n")) (items ++ more)

one_line-Reads :
    (l : Name) (item : Item)
    → all no_newline l ≡ true
    → ((items : List Item) → parse_line l items ≡ ok (new item items))
    → Reads (l ++ b'\n' ∷ []) (item ∷ [])
unfolding Reads new
one_line-Reads l item h e rest items =
    ap (λ z. parse_lines (split z (text "\n")) items) (append_assoc l (b'\n' ∷ []) rest)
    ∙ parse_lines-line l rest items (items ++ item ∷ []) h (e items)

append-Reads :
    (t u : Name) (xs ys : List Item) → Reads t xs → Reads u ys → Reads (t ++ u) (xs ++ ys)
unfolding Reads
append-Reads t u xs ys h k rest items =
    ap (λ z. parse_lines (split z (text "\n")) items) (append_assoc t u rest)
    ∙ (h (u ++ rest) items
        ∙ (k rest (items ++ xs)
            ∙ ap (parse_lines (split rest (text "\n"))) (append_assoc items xs ys)))

empty-Reads : Reads [] []
unfolding Reads
empty-Reads rest items = ap (parse_lines (split rest (text "\n"))) (sym (append-nil items))

symbol_line :
    (p l : Name) → all no_newline p ≡ true → is_symbol l ≡ true → all no_newline (p ++ l) ≡ true
symbol_line p l h k = all-append no_newline p l h (Argument-one_line l (is_symbol-Argument l k))

bytes-Reads :
    (bs : List ℕ)
    → All (λ b. b < 256) bs
    → Reads (write_bytes bs) (map (λ b. Item.bytes (b ∷ [])) bs)
unfolding write_bytes
bytes-Reads [] h = empty-Reads
bytes-Reads (b ∷ bs) h =
    subst (λ z. Reads z (map (λ c. Item.bytes (c ∷ [])) (b ∷ bs))) whole
      (append-Reads ((text "  .byte " ++ decimal b) ++ b'\n' ∷ []) (write_bytes bs)
        (Item.bytes (b ∷ []) ∷ []) _
        (one_line-Reads (text "  .byte " ++ decimal b) (Item.bytes (b ∷ []))
          (all-append no_newline (text "  .byte ") (decimal b) refl
            (Argument-one_line (decimal b) (decimal-Argument b)))
          (λ items. byte_line b items h.0))
        (bytes-Reads bs h.1))
  where
    whole :
        ((text "  .byte " ++ decimal b) ++ b'\n' ∷ []) ++ write_bytes bs
        ≡ text "  .byte " ++ (decimal b ++ b'\n' ∷ write_bytes bs)
    whole = ap (λ z. text "  .byte " ++ z) (append_assoc (decimal b) (b'\n' ∷ []) (write_bytes bs))

instr-Reads :
    (op : Op) (dst src : Operand)
    → PrintsInstr op dst src
    → Reads (write_instr op dst src) (reading (Item.instr op dst src) ∷ [])
unfolding write_instr
instr-Reads op dst src h =
    let s = PrintsInstr-Statement op dst src h in
    let m = mnemonic op src in
    let rest = operands_text dst src in
    subst (λ z. Reads z (reading (Item.instr op dst src) ∷ []))
      (ap (λ z. text "  " ++ z) (append_assoc m rest (b'\n' ∷ [])))
      (one_line-Reads (text "  " ++ (m ++ rest)) (reading (Item.instr op dst src))
        (all-append no_newline (text "  ") (m ++ rest) refl
          (statement-one_line m rest s.mnem s.operands))
        (parse_line-item m rest s.mnem s.operands))

section-Reads :
    (name : Name)
    → is_symbol name ≡ true
    → Reads
        (write_item (Item.section name sht_progbits (named_flags name)))
        (Item.section name sht_progbits (named_flags name) ∷ [])
unfolding write_item
section-Reads name h = elim (Bool-cases (name_eq name (text ".text"))) [
  | inl e ↦ rw e (is_text (eq_of_name_eq name (text ".text") e))
  | inr e ↦ rw e (
      one_line-Reads (text "  .section " ++ name)
        (Item.section name sht_progbits (named_flags name))
        (symbol_line (text "  .section ") name refl h) (λ items. section_line name items h))
]
  where
    is_text :
        name ≡ text ".text"
        → Reads
            (text "  .text" ++ b'\n' ∷ [])
            (Item.section name sht_progbits (named_flags name) ∷ [])
    is_text q =
        subst
          (λ z.
            Reads (text "  .text" ++ b'\n' ∷ []) (Item.section z sht_progbits (named_flags z) ∷ []))
          (sym q)
          (one_line-Reads (text "  .text")
            (Item.section (text ".text") sht_progbits (named_flags (text ".text"))) refl text_line)

directive-Reads :
    (line : Name)
    → Prints (Item.directive line)
    → Reads (write_item (Item.directive line)) (pieces (reading (Item.directive line)))
unfolding write_item reading
directive-Reads line (inl e) =
    rw e
      (one_line-Reads (text "  " ++ file_directive) (Item.directive file_directive) refl file_line)
directive-Reads line (inr e) = rw e (
    one_line-Reads (text "  " ++ stack_directive)
      (Item.section (text ".note.GNU-stack") sht_progbits 0) refl stack_line)

item-Reads : (item : Item) → Prints item → Reads (write_item item) (pieces (reading item))
unfolding write_item reading
item-Reads (Item.instr op dst src) h = instr-Reads op dst src h
item-Reads (Item.label name) h =
    one_line-Reads (name ++ text ":") (Item.label name)
      (all-append no_newline name (text ":") (Argument-one_line name (is_symbol-Argument name h))
        refl)
      (λ items. label_line name items h)
item-Reads (Item.globl name) h =
    one_line-Reads (text "  .globl " ++ name) (Item.globl name)
      (symbol_line (text "  .globl ") name refl h) (λ items. globl_line name items h)
item-Reads (Item.section name type flags) h = rw (h.1, h.2) (section-Reads name h.0)
item-Reads (Item.bytes data_) h = bytes-Reads data_ h
item-Reads (Item.directive line) h = directive-Reads line h

write-Reads : (items : List Item) → All Prints items → Reads (write items) (readings items)
unfolding write readings
write-Reads [] h = empty-Reads
write-Reads (item ∷ items) h =
    append-Reads (write_item item) (write items) (pieces (reading item)) (readings items)
      (item-Reads item h.0) (write-Reads items h.1)

-- The text of printable items is read back, each item as its reading: the parser ends without an error.
pub parse-write : (items : List Item) → All Prints items → parse (write items) ≡ ok (readings items)
unfolding parse Reads
parse-write items h =
    ap (λ z. parse_lines (split z (text "\n")) []) (sym (append-nil (write items)))
    ∙ (write-Reads items h [] [] ∙ last (readings items))
  where
    last : (xs : List Item) → parse_lines (split [] (text "\n")) xs ≡ ok xs
    last xs = unfold split parse_lines parse_line strip_comment trim dispatch drop_while in refl
