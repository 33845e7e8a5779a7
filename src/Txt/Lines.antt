-- ===== src/Txt/Lines.antt =====
-- The parser reads back labels, directives and bytes.
use mathlib.Core.Path.{subst, ap₂}
use ivan_cc.Prelude.{
  ℕ, ◌%◌, ◌^◌, ◌<◌, ◌==◌, not, true, false, ◌||◌, if◌then◌else◌, List, [], ◌∷◌, ◌++◌, ◌≡◌, refl, ap,
  ◌∙◌, arith, some, append_assoc, ok, pos, to_word,
}
use ivan_cc.Prelude.Name.{Name, text, decimal}
use ivan_cc.Asm.Types.{Item}
use ivan_cc.Asm.Emit.{new}
use ivan_cc.Elf.Object.{little, sht_progbits}
use ivan_cc.Str.Chars.{
  is_space, is_blank, is_digit, is_alpha, all, all-head, all-append, all-cons, all-weaken, null,
  take_while, drop_while, take_while-append, drop_while-append, take_while-all, drop_while-all,
  Stops, ne_of_class, strchr,
}
use ivan_cc.Str.Number.{strtol, decimal_ℤ}
use ivan_cc.Str.Digits.{decimal-Starts, strtol-decimal_ℤ, all-is_digit-decimal}
use ivan_cc.Str.Split.{starts_with}
use ivan_cc.Str.Trim.{trim}
use ivan_cc.Str.Pieces.{split-last, trim-bare, trim-append}
use ivan_cc.Txt.Pattern.{is_word, match_label, behind_label, is_word_start}
use ivan_cc.Txt.Directive.{
  parse_directive, run_directive, first_word, emit_ints, emit_int_parts, named_flags, parse_section,
  section_type, section_flags,
}
use ivan_cc.Txt.Line.{strip_comment, parse_statement, dispatch, parse_line}
use ivan_cc.Txt.Scan.{
  is_ink, ink-no_space, ink-ne, outside-is_blank, is_quiet, ink-quiet, strip_comment-quiet,
  strip-indent, trim-indent, parse_line-statement, parse_line-label, word-ink, alnum-word,
  digit-alnum,
}
use ivan_cc.Txt.Printable.{is_symbol, file_directive, stack_directive}
use ivan_cc.Txt.Arguments.{no_newline, ink-no_newline}
use ivan_cc.Txt.Sentences.{no_label}

-- A symbol, or a number, as the argument of a directive.
pub record Argument (a : Name) : Type 0 where
  pub some_text : null a ≡ false
  pub ink : all is_ink a ≡ true
  pub word : all is_word a ≡ true

pub is_symbol-Argument : (l : Name) → is_symbol l ≡ true → Argument l
unfolding is_symbol
is_symbol-Argument [] h = cc
is_symbol-Argument (c ∷ l) h =
    let w : all is_word (c ∷ l) ≡ true = ground arith in
    record { some_text = refl; ink = all-weaken is_word is_ink (c ∷ l) word-ink w; word = w }

digit-word : (c : ℕ) → is_digit c ≡ true → is_word c ≡ true
digit-word c h = alnum-word c (digit-alnum c h)

pub decimal-Argument : (n : ℕ) → Argument (decimal n)
decimal-Argument n =
    let w = all-weaken is_digit is_word (decimal n) digit-word (all-is_digit-decimal n) in
    record {
      some_text = ap null (decimal-Starts n).is;
      ink = all-weaken is_word is_ink (decimal n) word-ink w;
      word = w;
    }

module _ (a : Name) (x : Argument a) where
  Argument-bare : all (λ c. not (is_space c)) a ≡ true
  Argument-bare = all-weaken is_ink (λ c. not (is_space c)) a ink-no_space x.ink

  Argument-trim : trim a ≡ a
  Argument-trim = trim-bare a Argument-bare

  Argument-quiet : all is_quiet a ≡ true
  Argument-quiet = all-weaken is_ink is_quiet a ink-quiet x.ink

  pub Argument-one_line : all no_newline a ≡ true
  Argument-one_line = all-weaken is_ink no_newline a ink-no_newline x.ink

  -- The blank between a directive and its argument.
  Argument-blank : drop_while is_blank (b' ' ∷ a) ≡ a
  Argument-blank =
      drop_while-append is_blank (b' ' ∷ []) a (unfold is_blank in refl) (stops a x.some_text x.ink)
    where
      stops : (a : Name) → null a ≡ false → all is_ink a ≡ true → Stops is_blank a
      stops [] n h = tt
      stops (c ∷ a) n h =
          unfold is_ink in outside-is_blank is_ink c (all-head is_ink c a h) refl refl

  Argument-first_word : first_word a ≡ a
  Argument-first_word =
      take_while-all (λ c. not (is_blank c || c == b',')) a
        (all-weaken is_ink _ a ink-in_word x.ink)
    where
      ink-in_word : (c : ℕ) → is_ink c ≡ true → not (is_blank c || c == b',') ≡ true
      ink-in_word c h =
          unfold is_ink in
          rw (outside-is_blank is_ink c h refl refl, ne_of_class is_ink c b',' h refl) refl

  Argument-no_quote : strchr b'"' a ≡ []
  Argument-no_quote =
      drop_while-all (λ d. not (d == b'"')) a
        (all-weaken is_ink _ a (unfold is_ink in ink-ne b'"' refl) x.ink)

  -- A line of a directive and its argument; `d` is the word of the directive behind its dot.
  directive_line :
      (d : Name) (items : List Item)
      → all is_word d ≡ true
      → parse_line (text "  ." ++ (d ++ b' ' ∷ a)) items
        ≡ parse_directive (b'.' ∷ (d ++ b' ' ∷ a)) items
  directive_line d items w =
      let t = b'.' ∷ (d ++ b' ' ∷ a) in
      parse_line-statement (text "  " ++ t) t items (strip-indent t quiet) (trim-indent t ∙ trimmed)
        refl
        (no_label (b'.' ∷ d) (b' ' ∷ a) (all-cons is_word b'.' d (unfold is_word in refl) w)
          (unfold is_word in refl) refl)
      ∙ unfold parse_statement in refl
    where
      quiet : all is_quiet (b'.' ∷ (d ++ b' ' ∷ a)) ≡ true
      quiet =
          unfold is_quiet in
          all-append is_quiet (b'.' ∷ d) (b' ' ∷ a)
            (all-cons is_quiet b'.' d refl
              (all-weaken is_word is_quiet d (λ c h. ink-quiet c (word-ink c h)) w))
            (all-cons is_quiet b' ' a refl Argument-quiet)

      whole : (b'.' ∷ (d ++ b' ' ∷ [])) ++ a ≡ b'.' ∷ (d ++ b' ' ∷ a)
      whole = ap (λ z. b'.' ∷ z) (append_assoc d (b' ' ∷ []) a)

      trimmed : trim (b'.' ∷ (d ++ b' ' ∷ a)) ≡ b'.' ∷ (d ++ b' ' ∷ a)
      trimmed =
          subst (λ z. trim z ≡ z) whole
            (trim-append (b'.' ∷ (d ++ b' ' ∷ [])) a (unfold is_space in refl) x.some_text
              Argument-bare)

starts : (l : Name) → is_symbol l ≡ true → behind_label l (text ":") ≡ some (l, [])
unfolding is_symbol is_word_start drop_while
starts [] h = cc
starts (c ∷ l) h = rw (start c (symbol_start c l h)) refl
  where
    start : (c : ℕ) → (is_alpha c || c == b'.' || c == b'_') ≡ true → is_word_start c ≡ true
    start c h = rw h refl

    symbol_start :
        (c : ℕ) (l : Name)
        → is_symbol (c ∷ l) ≡ true
        → (is_alpha c || c == b'.' || c == b'_') ≡ true
    symbol_start c l h = ground arith

-- A label.
pub label_line :
    (l : Name) (items : List Item)
    → is_symbol l ≡ true
    → parse_line (l ++ text ":") items ≡ ok (new (Item.label l) items)
label_line l items h =
    let x = is_symbol-Argument l h in
    parse_line-label (l ++ text ":") l items
      (strip_comment-quiet (l ++ text ":")
        (all-append is_quiet l (text ":") (Argument-quiet l x) (unfold is_quiet in refl)))
      (trim-bare (l ++ text ":")
        (all-append _ l (text ":") (Argument-bare l x) (unfold is_space in refl)))
      (more l) (matched x)
  where
    more : (l : Name) → null (l ++ text ":") ≡ false
    more [] = refl
    more (c ∷ l) = refl

    matched : Argument l → match_label (l ++ text ":") ≡ some (l, [])
    matched x =
        unfold match_label is_word in
        (ap₂ behind_label (take_while-append is_word l (text ":") x.word refl)
            (drop_while-append is_word l (text ":") x.word refl)
          ∙ starts l h)

pub globl_line :
    (l : Name) (items : List Item)
    → is_symbol l ≡ true
    → parse_line (text "  .globl " ++ l) items ≡ ok (new (Item.globl l) items)
unfolding parse_directive run_directive is_blank take_while
globl_line l items h =
    let x = is_symbol-Argument l h in
    directive_line l x (text "globl") items (unfold is_word in refl)
    ∙ (ap (λ z. run_directive (text ".globl") z (text ".globl " ++ l) items) (Argument-blank l x)
        ∙ ap (λ z. ok (new (Item.globl z) items)) (Argument-first_word l x))

pub section_line :
    (l : Name) (items : List Item)
    → is_symbol l ≡ true
    → parse_line (text "  .section " ++ l) items
      ≡ ok (new (Item.section l sht_progbits (named_flags l)) items)
unfolding parse_directive run_directive parse_section is_blank take_while
section_line l items h =
    let x = is_symbol-Argument l h in
    directive_line l x (text "section") items (unfold is_word in refl)
    ∙ (ap (λ z. run_directive (text ".section") z (text ".section " ++ l) items)
          (Argument-blank l x)
        ∙ λ i. ok (
            new
              (Item.section (Argument-first_word l x i) (section_type l (Argument-no_quote l x i))
                (section_flags (Argument-first_word l x i) (Argument-no_quote l x i)))
              items))

pub text_line :
    (items : List Item)
    → parse_line (text "  .text") items
      ≡ ok (new (Item.section (text ".text") sht_progbits (named_flags (text ".text"))) items)
unfolding parse_line dispatch parse_statement strip_comment trim match_label is_word parse_directive
    is_blank take_while drop_while named_flags is_word_start
text_line items = refl

pub file_line :
    (items : List Item)
    → parse_line (text "  " ++ file_directive) items
      ≡ ok (new (Item.directive file_directive) items)
unfolding parse_line dispatch parse_statement strip_comment trim match_label is_word parse_directive
    is_blank take_while drop_while named_flags is_word_start
file_line items = refl

pub stack_line :
    (items : List Item)
    → parse_line (text "  " ++ stack_directive) items
      ≡ ok (new (Item.section (text ".note.GNU-stack") sht_progbits 0) items)
unfolding parse_line dispatch parse_statement strip_comment trim match_label is_word parse_directive
    is_blank take_while drop_while named_flags is_word_start starts_with
stack_line items = refl

emit_ints-decimal :
    (n : ℕ) (items : List Item)
    → n < 256
    → emit_ints (decimal n) 1 items ≡ new (Item.bytes (n ∷ [])) items
unfolding emit_ints
emit_ints-decimal n items h =
    let x = decimal-Argument n in
    let value : strtol (decimal n) ≡ pos n =
      unfold decimal_ℤ in strtol-decimal_ℤ (pos n) (omega arith) in
    ap (λ z. emit_int_parts 1 z items)
      (split-last b',' (decimal n)
        (all-weaken is_ink _ (decimal n) (unfold is_ink in ink-ne b',' refl) x.ink))
    ∙ (ap (λ z. if null z then items else new (Item.bytes (little 1 (to_word 64 (strtol z)))) items)
          (Argument-trim (decimal n) x)
        ∙ rw (x.some_text, value) (ap (λ z. new (Item.bytes (z ∷ [])) items) low))
  where
    low : n % 2 ^ 64 % 256 ≡ n
    low = omega arith

pub byte_line :
    (n : ℕ) (items : List Item)
    → n < 256
    → parse_line (text "  .byte " ++ decimal n) items ≡ ok (new (Item.bytes (n ∷ [])) items)
unfolding parse_directive run_directive is_blank take_while
byte_line n items h =
    let x = decimal-Argument n in
    directive_line (decimal n) x (text "byte") items (unfold is_word in refl)
    ∙ (ap (λ z. run_directive (text ".byte") z (text ".byte " ++ decimal n) items)
          (Argument-blank (decimal n) x)
        ∙ ap (λ z. ok z) (emit_ints-decimal n items h))
