-- ===== src/Txt/Arguments.antt =====
-- The operands of an instruction in their text.
use mathlib.Core.Path.{subst}
use ivan_cc.Prelude.{
  ℕ, ◌==◌, leb, not, Bool, true, false, List, [], ◌∷◌, ◌++◌, ◌≡◌, refl, ap, sym, ◌∙◌, append_assoc,
  append-nil, length, ok,
}
use ivan_cc.Prelude.Name.{Name, text}
use ivan_cc.Asm.Types.{Width, width_none, Op, Operand, no_operand, Item}
use ivan_cc.Str.Chars.{
  is_space, is_blank, all, all-head, all-append, all-cons, all-weaken, null, drop_while,
  drop_while-append, Stops,
}
use ivan_cc.Str.Split.{split}
use ivan_cc.Str.Trim.{trim}
use ivan_cc.Str.Pieces.{split-line, split-last, trim-bare, trim-space}
use ivan_cc.Txt.Instr.{parse_parts, parse_rest, instr_of}
use ivan_cc.Txt.Scan.{is_ink, ink-no_space, ink-ne, outside-is_blank, is_quiet, ink-quiet}
use ivan_cc.Txt.Registers.{Reads}

-- One more part of the operand list.
parse_parts-Reads :
    (line part t : Name) (parts : List Name) (ops : List Operand) (o : Operand)
    → trim part ≡ t
    → Reads t o
    → leb 2 (length ops) ≡ false
    → parse_parts line (part ∷ parts) ops ≡ parse_parts line parts (ops ++ o ∷ [])
unfolding parse_parts
parse_parts-Reads line part t parts ops o tr r l =
    let ink : null t ≡ false = ap null r.is in rw (tr, ink, l, r.parsed, parse_parts) refl

abbrev no_comma : ℕ → Bool
no_comma c = not (c == b',')

abbrev pub no_newline : ℕ → Bool
no_newline c = not (c == b'\n')

ink-no_comma : (c : ℕ) → is_ink c ≡ true → no_comma c ≡ true
unfolding is_ink
ink-no_comma c h = ink-ne b',' refl c h

pub ink-no_newline : (c : ℕ) → is_ink c ≡ true → no_newline c ≡ true
unfolding is_ink
ink-no_newline c h = ink-ne b'\n' refl c h

module _ (t : Name) {o : Operand} (r : Reads t o) where
  Reads-bare : all (λ c. not (is_space c)) t ≡ true
  Reads-bare = all-weaken is_ink (λ c. not (is_space c)) t ink-no_space r.ink

  Reads-trim : trim t ≡ t
  Reads-trim = trim-bare t Reads-bare

  Reads-null : null t ≡ false
  Reads-null = ap null r.is

  first_ink : is_ink r.first ≡ true
  first_ink = all-head is_ink r.first r.rest (subst (λ z. all is_ink z ≡ true) r.is r.ink)

  -- The blank in front of an operand goes.
  Reads-blank : (y : Name) → drop_while is_blank (b' ' ∷ (t ++ y)) ≡ t ++ y
  Reads-blank y =
      drop_while-append is_blank (b' ' ∷ []) (t ++ y) (unfold is_blank in refl)
        (subst (λ z. Stops is_blank (z ++ y)) (sym r.is) stops)
    where
      stops : is_blank r.first ≡ false
      stops = unfold is_ink in outside-is_blank is_ink r.first first_ink refl refl

  Reads-comma : all no_comma t ≡ true
  Reads-comma = all-weaken is_ink no_comma t ink-no_comma r.ink

parse_rest-split :
    (line s : Name) (parts : List Name)
    → null s ≡ false
    → split s (text ",") ≡ parts
    → parse_rest line s ≡ parse_parts line parts []
parse_rest-split line s parts n e = rw (n, e) refl

parse_rest-one :
    (line t : Name) (o : Operand)
    → Reads t o
    → parse_rest line (drop_while is_blank (b' ' ∷ t)) ≡ ok (o ∷ [])
parse_rest-one line t o r =
    let dropped : drop_while is_blank (b' ' ∷ t) ≡ t =
      ap (λ z. drop_while is_blank (b' ' ∷ z)) (sym (append-nil t))
      ∙ (Reads-blank t r [] ∙ append-nil t) in
    ap (parse_rest line) dropped
    ∙ (parse_rest-split line t (t ∷ []) (Reads-null t r) (split-last b',' t (Reads-comma t r))
        ∙ (parse_parts-Reads line t t [] [] o (Reads-trim t r) r refl ∙ unfold parse_parts in refl))

parse_rest-two :
    (line t u : Name) (o p : Operand)
    → Reads t o
    → Reads u p
    → parse_rest line (drop_while is_blank (b' ' ∷ (t ++ (text ", " ++ u)))) ≡ ok (o ∷ p ∷ [])
parse_rest-two line t u o p r q =
    ap (parse_rest line) (Reads-blank t r (text ", " ++ u))
    ∙ (parse_rest-split line (t ++ (text ", " ++ u)) (t ∷ (b' ' ∷ u) ∷ []) (more t (Reads-null t r))
          cut
        ∙ (parse_parts-Reads line t t ((b' ' ∷ u) ∷ []) [] o (Reads-trim t r) r refl
            ∙ (parse_parts-Reads line (b' ' ∷ u) u [] (o ∷ []) p
                  (trim-space b' ' u (unfold is_space in refl) ∙ Reads-trim u q) q refl
                ∙ unfold parse_parts in refl)))
  where
    more : (t : Name) → null t ≡ false → null (t ++ (text ", " ++ u)) ≡ false
    more [] n = cc
    more (c ∷ t) n = refl

    cut : split (t ++ (text ", " ++ u)) (text ",") ≡ t ∷ (b' ' ∷ u) ∷ []
    cut =
        split-line b',' t (b' ' ∷ u) (Reads-comma t r)
        ∙ ap (λ z. t ∷ z)
            (split-last b',' (b' ' ∷ u) (all-cons no_comma b' ' u refl (Reads-comma u q)))

-- The text behind a mnemonic: nothing, or a blank and a text that ends in an operand.
pub data Tail (rest : Name) : Type 0 where
  empty : rest ≡ [] → Tail rest
  full :
      (a b : Name)
      → rest ≡ b' ' ∷ (a ++ b)
      → null b ≡ false
      → all (λ c. not (is_space c)) b ≡ true
      → Tail rest

-- What the parser makes of the text of the operands of an item.
pub record Operands (op : Op) (w : Width) (item : Item) (rest : Name) : Type 0 where
  pub ops : List Operand
  pub parsed : (line : Name) → parse_rest line (drop_while is_blank rest) ≡ ok ops
  pub made : instr_of op w ops ≡ item
  pub quiet : all is_quiet rest ≡ true
  pub one_line : all no_newline rest ≡ true
  pub tail : Tail rest

Reads-quiet : (t : Name) (o : Operand) → Reads t o → all is_quiet t ≡ true
Reads-quiet t o r = all-weaken is_ink is_quiet t ink-quiet r.ink

Reads-one_line : (t : Name) (o : Operand) → Reads t o → all no_newline t ≡ true
Reads-one_line t o r = all-weaken is_ink no_newline t ink-no_newline r.ink

pub no_operands : (op : Op) → Operands op width_none (Item.instr op no_operand no_operand) []
no_operands op = record {
  ops = [];
  parsed = λ line. unfold drop_while in refl;
  made = unfold instr_of in refl;
  quiet = refl;
  one_line = refl;
  tail = empty refl;
}

pub one_operand :
    (op : Op) (t : Name) (o : Operand)
    → Reads t o
    → Operands op width_none (Item.instr op o no_operand) (b' ' ∷ t)
one_operand op t o r = record {
  ops = o ∷ [];
  parsed = λ line. parse_rest-one line t o r;
  made = unfold instr_of in refl;
  quiet = all-cons is_quiet b' ' t (unfold is_quiet in refl) (Reads-quiet t o r);
  one_line = all-cons no_newline b' ' t refl (Reads-one_line t o r);
  tail = full [] t refl (Reads-null t r) (Reads-bare t r);
}

pub two_operands :
    (op : Op) (w : Width) (t u : Name) (o p : Operand)
    → Reads t o
    → Reads u p
    → Operands op w (instr_of op w (o ∷ p ∷ [])) (b' ' ∷ (t ++ (text ", " ++ u)))
two_operands op w t u o p r q = record {
  ops = o ∷ p ∷ [];
  parsed = λ line. parse_rest-two line t u o p r q;
  made = refl;
  quiet = all-cons is_quiet b' ' (t ++ (text ", " ++ u)) (unfold is_quiet in refl) (
      all-append is_quiet t (text ", " ++ u) (Reads-quiet t o r)
        (all-append is_quiet (text ", ") u (unfold is_quiet in refl) (Reads-quiet u p q)));
  one_line = all-cons no_newline b' ' (t ++ (text ", " ++ u)) refl (
      all-append no_newline t (text ", " ++ u) (Reads-one_line t o r)
        (all-append no_newline (text ", ") u refl (Reads-one_line u p q)));
  tail =
      full (t ++ text ", ") u (ap (λ z. b' ' ∷ z) (sym (append_assoc t (text ", ") u)))
        (Reads-null u q) (Reads-bare u q);
}
