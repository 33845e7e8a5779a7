-- ===== src/Txt/Memory.antt =====
-- The parser reads back an operand in memory.
use ivan_cc.Prelude.{
  ℕ, zero, suc, ◌==◌, not, Bool, true, false, ◌&&◌, ◌||◌, if◌then◌else◌, [], ◌∷◌, ◌++◌, ◌≡◌, refl,
  ap, sym, ◌∙◌, arith, Option, none, some, ℤ, pos, negsuc, Fits, signed, to_word, signed-to_word_32,
}
use ivan_cc.Prelude.Name.{Name, text, name_eq, decimal}
use ivan_cc.Asm.Types.{Reg}
use ivan_cc.Asm.Emit.{mem}
use ivan_cc.Str.Chars.{
  is_alpha, is_digit, is_alnum, all, all-append, all-cons, all-weaken, null, take_while, drop_while,
  take_while-append, drop_while-append, ne_of_class,
}
use ivan_cc.Str.Number.{strtol, decimal_ℤ}
use ivan_cc.Str.Digits.{decimal-Starts, strtol-decimal_ℤ, all-is_digit-decimal}
use ivan_cc.Txt.Names.{reg64_name, reg_by_name}
use ivan_cc.Txt.Pattern.{
  is_word, is_number, is_register, match_register, match_immediate, match_rip, match_base,
  behind_disp, match_memory,
}
use ivan_cc.Txt.Write.{disp_text}
use ivan_cc.Txt.Operand.{memory_operand, disp_of}
use ivan_cc.Txt.Scan.{is_ink, alnum-word, digit-alnum}
use ivan_cc.Txt.Registers.{Reads, named64, parse-memory}
use ivan_cc.Txt.Constants.{decimal_ℤ-ink, is_number-decimal_ℤ}
use ivan_cc.Txt.Symbols.{no_immediate, no_register}

-- What is behind the displacement of a memory operand.
abbrev base_text : Reg → Name
base_text r = text "(%" ++ (reg64_name r ++ text ")")

no_rip : (r : Reg) → name_eq (base_text r) (text "(%rip)") ≡ false
unfolding reg64_name
no_rip Reg.rax = refl
no_rip _ = refl

match_base-base_text : (r : Reg) → match_base (base_text r) ≡ some (reg64_name r)
unfolding match_base reg64_name is_register is_alpha is_alnum take_while drop_while
match_base-base_text Reg.rax = refl
match_base-base_text _ = refl

base_text-ink : (r : Reg) → all is_ink (base_text r) ≡ true
unfolding reg64_name is_ink
base_text-ink Reg.rax = refl
base_text-ink _ = refl

pub and_false : (b : Bool) → (b && false) ≡ false
and_false true = refl
and_false false = refl

abbrev pub no_paren : ℕ → Bool
no_paren c = not (c == b'(')

match_memory-number :
    (dt : Name) (r : Reg)
    → is_number dt ≡ true
    → all no_paren dt ≡ true
    → match_memory (dt ++ base_text r) ≡ some (dt, reg64_name r)
unfolding match_memory
match_memory-number dt r n p =
    let runs : match_memory (dt ++ base_text r) ≡ behind_disp dt (base_text r) = λ i.
      behind_disp (take_while-append no_paren dt (base_text r) p refl i)
        (drop_while-append no_paren dt (base_text r) p refl i) in
    runs ∙ rw (n, match_base-base_text r) (either (null dt))
  where
    either :
        (b : Bool)
        → (if◌then◌else◌ {A = Option (Name × Name)} (b || true) (some (dt, reg64_name r)) none)
          ≡ some (dt, reg64_name r)
    either true = refl
    either false = refl

word_rip : (dt : Name) (r : Reg) → all is_word dt ≡ true → match_rip (dt ++ base_text r) ≡ none
unfolding match_rip
word_rip dt r w =
    rw
      (
        take_while-append is_word dt (base_text r) w (unfold is_word in refl),
        drop_while-append is_word dt (base_text r) w (unfold is_word in refl),
        no_rip r,
        and_false (not (null dt)),
      )
      refl

-- The text of a displacement that is not 0.
pub record Disp (d : ℤ) (dt : Name) : Type 0 where
  pub first : ℕ
  pub rest : Name
  pub is : dt ≡ first ∷ rest
  pub no_percent : (first == b'%') ≡ false
  pub no_dollar : (first == b'$') ≡ false
  pub number : is_number dt ≡ true
  pub ink : all is_ink dt ≡ true
  pub paren : all no_paren dt ≡ true
  pub no_rip : (r : Reg) → match_rip (dt ++ base_text r) ≡ none
  pub value : strtol dt ≡ d

digit-no_paren : (c : ℕ) → is_digit c ≡ true → no_paren c ≡ true
digit-no_paren c h = ap not (ne_of_class is_digit c b'(' h (unfold is_digit in refl))

digits-no_paren : (n : ℕ) → all no_paren (decimal n) ≡ true
digits-no_paren n = all-weaken is_digit no_paren (decimal n) digit-no_paren (all-is_digit-decimal n)

digit-word : (c : ℕ) → is_digit c ≡ true → is_word c ≡ true
digit-word c h = alnum-word c (digit-alnum c h)

decimal_ℤ-Disp : (d : ℤ) → Fits 64 d → Disp d (decimal_ℤ d)
unfolding decimal_ℤ
decimal_ℤ-Disp (pos n) h =
    let s = decimal-Starts n in
    record {
      first = s.first;
      rest = s.rest;
      is = s.is;
      no_percent = ne_of_class is_digit s.first b'%' s.digit (unfold is_digit in refl);
      no_dollar = ne_of_class is_digit s.first b'$' s.digit (unfold is_digit in refl);
      number = is_number-decimal_ℤ (pos n);
      ink = decimal_ℤ-ink (pos n);
      paren = digits-no_paren n;
      no_rip = λ r.
          word_rip (decimal n) r
            (all-weaken is_digit is_word (decimal n) digit-word (all-is_digit-decimal n));
      value = strtol-decimal_ℤ (pos n) h;
    }
decimal_ℤ-Disp (negsuc n) h = record {
  first = b'-';
  rest = decimal (suc n);
  is = refl;
  no_percent = refl;
  no_dollar = refl;
  number = is_number-decimal_ℤ (negsuc n);
  ink = decimal_ℤ-ink (negsuc n);
  paren = all-cons no_paren b'-' (decimal (suc n)) refl (digits-no_paren (suc n));
  no_rip = λ r. unfold match_rip take_while is_word in refl;
  value = strtol-decimal_ℤ (negsuc n) h;
}

disp_of-cons : (d : ℤ) (c : ℕ) (s : Name) → strtol (c ∷ s) ≡ d → Fits 32 d → disp_of (c ∷ s) ≡ d
disp_of-cons d c s e f = ap (λ z. signed 32 (to_word 32 z)) e ∙ signed-to_word_32 d f

number-Reads :
    (d : ℤ) (dt : Name) (r : Reg) → Disp d dt → Fits 32 d → Reads (dt ++ base_text r) (mem r d)
number-Reads d dt r t f = record {
  first = t.first;
  rest = t.rest ++ base_text r;
  is = ap (λ z. z ++ base_text r) t.is;
  ink = all-append is_ink dt (base_text r) t.ink (base_text-ink r);
  parsed =
      parse-memory (dt ++ base_text r) dt (reg64_name r)
        (rw t.is (no_register t.first _ t.no_percent))
        (rw t.is (no_immediate t.first _ t.no_dollar)) (t.no_rip r)
        (match_memory-number dt r t.number t.paren)
      ∙ (ap (λ z. memory_operand z (reg_by_name (reg64_name r))) disp
          ∙ ap (memory_operand d) (named64 r).found);
}
  where
    disp : disp_of dt ≡ d
    disp = ap disp_of t.is ∙ disp_of-cons d t.first t.rest (ap strtol (sym t.is) ∙ t.value) f

Fits-64 : (d : ℤ) → Fits 32 d → Fits 64 d
Fits-64 (pos n) h = omega arith
Fits-64 (negsuc n) h = omega arith

pub memory-Reads : (r : Reg) (d : ℤ) → Fits 32 d → Reads (disp_text d ++ base_text r) (mem r d)
memory-Reads r (pos zero) f = record {
  first = b'(';
  rest = b'%' ∷ (reg64_name r ++ text ")");
  is = refl;
  ink = base_text-ink r;
  parsed =
      parse-memory (base_text r) [] (reg64_name r) (unfold match_register in refl)
        (unfold match_immediate in refl) (unfold match_rip take_while is_word in refl)
        (unfold match_memory take_while drop_while in rw (match_base-base_text r) refl)
      ∙ ap (memory_operand (pos 0)) (named64 r).found;
}
memory-Reads r (pos (suc n)) f =
    number-Reads (pos (suc n)) (decimal_ℤ (pos (suc n))) r
      (decimal_ℤ-Disp (pos (suc n)) (Fits-64 (pos (suc n)) f)) f
memory-Reads r (negsuc n) f =
    number-Reads (negsuc n) (decimal_ℤ (negsuc n)) r
      (decimal_ℤ-Disp (negsuc n) (Fits-64 (negsuc n) f)) f
