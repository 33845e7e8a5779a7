-- ===== src/Txt/Sentences.antt =====
-- The parser reads back the text of an instruction.
use mathlib.Core.Path.{ap₂}
use ivan_cc.Prelude.{
  ℕ, ◌==◌, not, Bool, true, false, ◌&&◌, if◌then◌else◌, List, [], ◌∷◌, ◌++◌, ◌≡◌, refl, ap, sym,
  ◌∙◌, arith, Option, none, some, append_assoc, append-nil, ok,
}
use ivan_cc.Prelude.Name.{Name, text}
use ivan_cc.Asm.Types.{Width, Op, Item}
use ivan_cc.Asm.Emit.{new}
use ivan_cc.Str.Chars.{
  is_space, is_blank, is_alpha, all, all-head, all-append, all-weaken, null, drop_while,
  take_while-append, drop_while-append, Stops, ne_of_class,
}
use ivan_cc.Str.Trim.{trim}
use ivan_cc.Str.Pieces.{trim-bare, trim-append}
use ivan_cc.Txt.Pattern.{is_word, match_label, behind_label, starts_word}
use ivan_cc.Txt.Instr.{finish_instr, parse_instr}
use ivan_cc.Txt.Line.{parse_statement, parse_line}
use ivan_cc.Txt.Scan.{
  is_ink, ink-no_space, ink-no_blank, is_quiet, ink-quiet, strip-indent, trim-indent,
  parse_line-statement, alpha-alnum, alnum-word, word-ink,
}
use ivan_cc.Txt.Mnemonics.{Mnemonic}
use ivan_cc.Txt.Arguments.{empty, full, Operands, Tail, ink-no_newline, no_newline}

abbrev non_blank : ℕ → Bool
non_blank c = not (is_blank c)

alpha-ink : (c : ℕ) → is_alpha c ≡ true → is_ink c ≡ true
alpha-ink c h = word-ink c (alnum-word c (alpha-alnum c h))

alpha-word : (c : ℕ) → is_alpha c ≡ true → is_word c ≡ true
alpha-word c h = alnum-word c (alpha-alnum c h)

alpha-no_blank : (c : ℕ) → is_alpha c ≡ true → non_blank c ≡ true
alpha-no_blank c h = ink-no_blank c (alpha-ink c h)

alpha-no_space : (c : ℕ) → is_alpha c ≡ true → not (is_space c) ≡ true
alpha-no_space c h = ink-no_space c (alpha-ink c h)

alpha-quiet : (c : ℕ) → is_alpha c ≡ true → is_quiet c ≡ true
alpha-quiet c h = ink-quiet c (alpha-ink c h)

alpha-no_newline : (c : ℕ) → is_alpha c ≡ true → no_newline c ≡ true
alpha-no_newline c h = ink-no_newline c (alpha-ink c h)

not_null : (m y : Name) → null m ≡ false → null (m ++ y) ≡ false
not_null [] y n = cc
not_null (c ∷ m) y n = refl

head_of :
    (m : Name)
    → null m ≡ false
    → all (λ c. not (is_space c)) m ≡ true
    → (y : Name) → Stops is_space (m ++ y)
head_of [] n h y = cc
head_of (c ∷ m) n h y = ground arith

abbrev pub NoColon : Name → Type 0
NoColon [] = Unit
NoColon (c ∷ cs) = (c == b':') ≡ false

behind_label-none : (l r : Name) → NoColon r → behind_label l r ≡ none
behind_label-none l [] h = refl
behind_label-none l (c ∷ r) h = rw h (pick (starts_word l))
  where
    pick :
        (b : Bool)
        → (if◌then◌else◌ {A = Option (Name × Name)}
            (b && false)
            (some (l, drop_while is_blank r))
            none)
          ≡ none
    pick true = refl
    pick false = refl

pub no_label :
    (m y : Name) → all is_word m ≡ true → Stops is_word y → NoColon y → match_label (m ++ y) ≡ none
unfolding match_label
no_label m y h s c =
    ap₂ behind_label (take_while-append is_word m y h s) (drop_while-append is_word m y h s)
    ∙ behind_label-none m y c

instr_branch :
    (m y : Name) (items : List Item)
    → null m ≡ false
    → all is_alpha m ≡ true
    → parse_statement (m ++ y) items ≡ parse_instr (m ++ y) items
unfolding parse_statement
instr_branch [] y items n h = cc
instr_branch (c ∷ m) y items n h =
    let dot : (c == b'.') ≡ false =
      ne_of_class is_alpha c b'.' (all-head is_alpha c m h) (unfold is_alpha in refl) in
    rw dot refl

-- The whole text of a statement, as parse_line meets it.
module _ {op : Op} {w : Width} {item : Item} (m rest : Name) (mn : Mnemonic op w m)
    (os : Operands op w item rest) where
  Stops-blank : Stops (λ c. not (is_blank c)) rest
  Stops-blank = at_tail os.tail
    where
      at_tail : Tail rest → Stops (λ c. not (is_blank c)) rest
      at_tail (empty e) = rw e tt
      at_tail (full a b e n h) = rw e (unfold is_blank in refl)

  statement-parse_instr : (items : List Item) → parse_instr (m ++ rest) items ≡ ok (new item items)
  unfolding parse_instr finish_instr
  statement-parse_instr items =
      ap₂ (λ z y. finish_instr (m ++ rest) z y items)
        (take_while-append non_blank m rest alpha Stops-blank)
        (drop_while-append non_blank m rest alpha Stops-blank)
      ∙ finish
    where
      alpha : all non_blank m ≡ true
      alpha = all-weaken is_alpha non_blank m alpha-no_blank mn.alpha

      finish : finish_instr (m ++ rest) m rest items ≡ ok (new item items)
      finish =
          unfold finish_instr in
          rw (mn.fine, mn.resolved, os.parsed (m ++ rest), mn.width)
            (ap (λ z. ok (new z items)) os.made)

  statement-trim : trim (m ++ rest) ≡ m ++ rest
  statement-trim = at_tail os.tail
    where
      starts : (y : Name) → Stops is_space (m ++ y)
      starts =
          head_of m mn.some_text
            (all-weaken is_alpha (λ c. not (is_space c)) m alpha-no_space mn.alpha)

      at_tail : Tail rest → trim (m ++ rest) ≡ m ++ rest
      at_tail (empty e) =
          rw (e, append-nil m)
            (trim-bare m (all-weaken is_alpha (λ c. not (is_space c)) m alpha-no_space mn.alpha))
      at_tail (full a b e n h) =
          rw (e, sym (append_assoc m (b' ' ∷ a) b))
            (trim-append (m ++ b' ' ∷ a) b
              (rw (append_assoc m (b' ' ∷ a) b) (starts (b' ' ∷ (a ++ b)))) n h)

  statement-match_label : match_label (m ++ rest) ≡ none
  statement-match_label = at_tail os.tail
    where
      words : all is_word m ≡ true
      words = all-weaken is_alpha is_word m alpha-word mn.alpha

      at_tail : Tail rest → match_label (m ++ rest) ≡ none
      at_tail (empty e) = rw e (no_label m [] words tt tt)
      at_tail (full a b e n h) =
          rw e (no_label m (b' ' ∷ (a ++ b)) words (unfold is_word in refl) refl)

  statement-quiet : all is_quiet (m ++ rest) ≡ true
  statement-quiet =
      all-append is_quiet m rest (all-weaken is_alpha is_quiet m alpha-quiet mn.alpha) os.quiet

  pub statement-one_line : all no_newline (m ++ rest) ≡ true
  statement-one_line =
      all-append no_newline m rest (all-weaken is_alpha no_newline m alpha-no_newline mn.alpha)
        os.one_line

  -- The parser appends the item of a statement.
  pub parse_line-item :
      (items : List Item) → parse_line (text "  " ++ (m ++ rest)) items ≡ ok (new item items)
  parse_line-item items =
      parse_line-statement (text "  " ++ (m ++ rest)) (m ++ rest) items
        (strip-indent (m ++ rest) statement-quiet) (trim-indent (m ++ rest) ∙ statement-trim)
        (not_null m rest mn.some_text) statement-match_label
      ∙ (instr_branch m rest items mn.some_text mn.alpha ∙ statement-parse_instr items)
