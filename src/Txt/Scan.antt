-- ===== src/Txt/Scan.antt =====
-- Characters that the writer of the assembly text puts into mnemonics and operands, and how the parser's scans run over
-- them.
use ivan_cc.Prelude.{
  ℕ, ◌==◌, not, Bool, true, false, ◌&&◌, ◌||◌, List, [], ◌∷◌, ◌++◌, ◌≡◌, refl, ap, ◌∙◌, arith, none,
  some, ok, length,
}
use ivan_cc.Prelude.Name.{Name, text}
use ivan_cc.Str.Chars.{
  null, all-append, is_space, is_blank, is_digit, is_alpha, is_alnum, all, all-head, all-tail,
  ne_of_class,
}
use ivan_cc.Txt.Pattern.{is_word, match_label}
use ivan_cc.Asm.Types.{Item}
use ivan_cc.Asm.Emit.{new}
use ivan_cc.Str.Trim.{trim}
use ivan_cc.Str.Pieces.{trim-space}
use ivan_cc.Txt.Line.{strip_comment, dispatch, parse_statement, parse_line, parse_line_fuel}

-- The characters of operands.
unfoldable pub is_ink : ℕ → Bool
unfolding is_word is_alnum
is_ink c = is_word c || c == b'%' || c == b'(' || c == b')' || c == b'-'

-- A character of a class that has no white space is none.
pub outside-is_space :
    (p : ℕ → Bool) (c : ℕ)
    → p c ≡ true
    → p b' ' ≡ false
    → p b'\t' ≡ false
    → p b'\r' ≡ false
    → p b'\n' ≡ false
    → p 12 ≡ false
    → p 11 ≡ false
    → is_space c ≡ false
unfolding is_space
outside-is_space p c h a b d e f g =
    rw
      (
        ne_of_class p c b' ' h a,
        ne_of_class p c b'\t' h b,
        ne_of_class p c b'\r' h d,
        ne_of_class p c b'\n' h e,
        ne_of_class p c 12 h f,
        ne_of_class p c 11 h g,
      )
      refl

pub outside-is_blank :
    (p : ℕ → Bool) (c : ℕ) → p c ≡ true → p b' ' ≡ false → p b'\t' ≡ false → is_blank c ≡ false
unfolding is_blank
outside-is_blank p c h a b = rw (ne_of_class p c b' ' h a, ne_of_class p c b'\t' h b) refl

pub ink-no_space : (c : ℕ) → is_ink c ≡ true → not (is_space c) ≡ true
unfolding is_ink
ink-no_space c h = ap not (outside-is_space is_ink c h refl refl refl refl refl refl)

pub ink-no_blank : (c : ℕ) → is_ink c ≡ true → not (is_blank c) ≡ true
unfolding is_ink
ink-no_blank c h = ap not (outside-is_blank is_ink c h refl refl)

pub ink-ne : (d : ℕ) → is_ink d ≡ false → (c : ℕ) → is_ink c ≡ true → not (c == d) ≡ true
ink-ne d e c h = ap not (ne_of_class is_ink c d h e)

pub word-ink : (c : ℕ) → is_word c ≡ true → is_ink c ≡ true
unfolding is_ink
word-ink c h = rw h refl

pub alnum-word : (c : ℕ) → is_alnum c ≡ true → is_word c ≡ true
unfolding is_word
alnum-word c h = rw h refl

pub alpha-alnum : (c : ℕ) → is_alpha c ≡ true → is_alnum c ≡ true
unfolding is_alnum
alpha-alnum c h = rw h refl

pub digit-alnum : (c : ℕ) → is_digit c ≡ true → is_alnum c ≡ true
unfolding is_alnum
digit-alnum c h = ground arith

-- A line without quotes and without `#` has no comment.
unfoldable pub is_quiet : ℕ → Bool
is_quiet c = not (c == b'"') && not (c == b'#')

no_quote : (c : ℕ) → is_quiet c ≡ true → (c == b'"') ≡ false
unfolding is_quiet
no_quote c h = ground arith

no_hash : (c : ℕ) → is_quiet c ≡ true → (c == b'#') ≡ false
unfolding is_quiet
no_hash c h = ground arith

pub strip_comment-quiet : (s : Name) → all is_quiet s ≡ true → strip_comment false s ≡ s
unfolding strip_comment
strip_comment-quiet [] h = refl
strip_comment-quiet (c ∷ s) h =
    step (all-head is_quiet c s h) (strip_comment-quiet s (all-tail is_quiet c s h))
  where
    step : is_quiet c ≡ true → strip_comment false s ≡ s → strip_comment false (c ∷ s) ≡ c ∷ s
    step q e = rw (no_quote c q, no_hash c q) (ap (λ z. c ∷ z) e)

pub ink-quiet : (c : ℕ) → is_ink c ≡ true → is_quiet c ≡ true
unfolding is_ink is_quiet
ink-quiet c h = rw (ne_of_class is_ink c b'"' h refl, ne_of_class is_ink c b'#' h refl) refl

-- A line without a label and without quotes: the branches of Txt_x86_64_Att_ParseLine behind the label.
pub parse_line-statement :
    (line t : Name) (items : List Item)
    → strip_comment false line ≡ line
    → trim line ≡ t
    → null t ≡ false
    → match_label t ≡ none
    → parse_line line items ≡ parse_statement t items
unfolding parse_line parse_line_fuel
parse_line-statement line t items q tr n l =
    let again = parse_line_fuel (length line) in
    ap (λ z. dispatch again (trim z) items) q
    ∙ (ap (λ z. dispatch again z items) tr ∙ unfold dispatch in rw (n, l) refl)

-- A line that is a label.
pub parse_line-label :
    (line l : Name) (items : List Item)
    → strip_comment false line ≡ line
    → trim line ≡ line
    → null line ≡ false
    → match_label line ≡ some (l, [])
    → parse_line line items ≡ ok (new (Item.label l) items)
unfolding parse_line parse_line_fuel
parse_line-label line l items q tr n e =
    let again = parse_line_fuel (length line) in
    ap (λ z. dispatch again (trim z) items) q
    ∙ (ap (λ z. dispatch again z items) tr ∙ unfold dispatch in rw (n, e) refl)

-- The indent of the writer.
pub trim-indent : (s : Name) → trim (text "  " ++ s) ≡ trim s
trim-indent s =
    trim-space b' ' (b' ' ∷ s) (unfold is_space in refl)
    ∙ trim-space b' ' s (unfold is_space in refl)

pub strip-indent :
    (s : Name) → all is_quiet s ≡ true → strip_comment false (text "  " ++ s) ≡ text "  " ++ s
unfolding is_quiet
strip-indent s h = strip_comment-quiet (text "  " ++ s) (all-append is_quiet (text "  ") s refl h)
