-- ===== src/Txt/Operands.antt =====
-- The parser reads back the text of an operand.
use ivan_cc.Prelude.{
  ℕ, not, Bool, true, false, ◌||◌, if◌then◌else◌, ◌∷◌, ◌≡◌, refl, ap, Option, none, inl, inr, ◌⊎◌,
}
use ivan_cc.Prelude.Name.{Name}
use ivan_cc.Asm.Types.{Reg, Width, width_8, width_32, width_64, Operand}
use ivan_cc.Asm.Emit.{reg_width, target}
use ivan_cc.Str.Chars.{all-weaken, null, take_while-all, drop_while-all, ne_of_class}
use ivan_cc.Txt.Names.{reg64_name, reg8_name, reg32_name}
use ivan_cc.Txt.Pattern.{is_word, is_number, match_rip, match_base, match_memory, match_target}
use ivan_cc.Txt.Write.{write_operand, reg_name}
use ivan_cc.Txt.Scan.{is_ink, word-ink}
use ivan_cc.Txt.Printable.{PrintsOperand, register, immediate, memory, relative, symbol, plain}
use ivan_cc.Txt.Registers.{Reads, named32, named64, named8, parse-target, register-Reads}
use ivan_cc.Txt.Constants.{immediate-Reads}
use ivan_cc.Txt.Symbols.{Symbol, is_symbol-Symbol, no_immediate, no_register, relative-Reads}
use ivan_cc.Txt.Memory.{and_false, memory-Reads, no_paren}

word-no_paren : (c : ℕ) → is_word c ≡ true → no_paren c ≡ true
word-no_paren c h = ap not (ne_of_class is_word c b'(' h (unfold is_word in refl))

either : (b : Bool) → (if◌then◌else◌ {A = Option (Name × Name)} b none none) ≡ none
either true = refl
either false = refl

Symbol-Reads : (l : Name) → Symbol l → Reads l (target l)
Symbol-Reads l s = record {
  first = s.first;
  rest = s.rest;
  is = s.is;
  ink = all-weaken is_word is_ink l word-ink s.word;
  parsed =
      parse-target l (rw s.is (no_register s.first s.rest s.no_percent))
        (rw s.is (no_immediate s.first s.rest s.no_dollar)) (no_rip_of s) (no_memory s)
        (target_of s);
}
  where
    no_rip_of : Symbol l → match_rip l ≡ none
    no_rip_of s =
        unfold match_rip in
        rw
          (
            take_while-all is_word l s.word,
            drop_while-all is_word l s.word,
            and_false (not (null l)),
          )
          refl

    no_memory : Symbol l → match_memory l ≡ none
    no_memory s =
        let p = all-weaken is_word no_paren l word-no_paren s.word in
        unfold match_memory match_base in
        rw (take_while-all no_paren l p, drop_while-all no_paren l p)
          (either (null l || is_number l))

    target_of : Symbol l → match_target l ≡ true
    target_of s = unfold match_target in rw (s.word, s.is) refl

reg-Reads :
    (r : Reg) (w : Width)
    → (w ≡ width_8) ⊎ ((w ≡ width_32) ⊎ (w ≡ width_64))
    → Reads (b'%' ∷ reg_name r w) (reg_width r w)
reg-Reads r w (inl e) = rw e (register-Reads r width_8 (reg8_name r) (named8 r))
reg-Reads r w (inr (inl e)) = rw e (register-Reads r width_32 (reg32_name r) (named32 r))
reg-Reads r w (inr (inr e)) = rw e (register-Reads r width_64 (reg64_name r) (named64 r))

-- The parser reads the text of a printable operand back, but for the width of a memory access.
pub write_operand-Reads : (o : Operand) → PrintsOperand o → Reads (write_operand o) (plain o)
unfolding write_operand
write_operand-Reads o (register r w e h) = rw e (reg-Reads r w h)
write_operand-Reads o (immediate v e h) = rw e (immediate-Reads v h)
write_operand-Reads o (memory r d w e h) = rw e (memory-Reads r d h)
write_operand-Reads o (relative l e h) = rw e (relative-Reads l (is_symbol-Symbol l h))
write_operand-Reads o (symbol l e h) = rw e (Symbol-Reads l (is_symbol-Symbol l h))
