-- ===== src/Txt/Symbols.antt =====
-- The parser reads back an operand that is relative to %rip.
use ivan_cc.Prelude.{ℕ, ◌==◌, true, false, [], ◌∷◌, ◌++◌, ◌≡◌, refl, ap, arith, none, some}
use ivan_cc.Prelude.Name.{Name, text}
use ivan_cc.Asm.Emit.{rip}
use ivan_cc.Str.Chars.{is_alpha, all, all-append, all-weaken, take_while-append, drop_while-append}
use ivan_cc.Txt.Pattern.{is_word, match_register, match_immediate, match_rip}
use ivan_cc.Txt.Scan.{is_ink, word-ink}
use ivan_cc.Txt.Printable.{is_symbol}
use ivan_cc.Txt.Registers.{Reads, parse-rip}

-- A symbol begins with none of the other characters of operands.
pub record Symbol (l : Name) : Type 0 where
  pub first : ℕ
  pub rest : Name
  pub is : l ≡ first ∷ rest
  pub word : all is_word l ≡ true
  pub no_percent : (first == b'%') ≡ false
  pub no_dollar : (first == b'$') ≡ false

pub is_symbol-Symbol : (l : Name) → is_symbol l ≡ true → Symbol l
unfolding is_symbol
is_symbol-Symbol [] h = cc
is_symbol-Symbol (c ∷ l) h = record {
  first = c;
  rest = l;
  is = refl;
  word = ground arith;
  no_percent = unfold is_alpha in ground arith;
  no_dollar = unfold is_alpha in ground arith;
}

pub no_register : (c : ℕ) (s : Name) → (c == b'%') ≡ false → match_register (c ∷ s) ≡ none
unfolding match_register
no_register c s h = rw h refl

pub no_immediate : (c : ℕ) (s : Name) → (c == b'$') ≡ false → match_immediate (c ∷ s) ≡ none
unfolding match_immediate
no_immediate c s h = rw h refl

pub relative-Reads : (l : Name) → Symbol l → Reads (l ++ text "(%rip)") (rip l)
relative-Reads l s = record {
  first = s.first;
  rest = s.rest ++ text "(%rip)";
  is = ap (λ z. z ++ text "(%rip)") s.is;
  ink =
      all-append is_ink l (text "(%rip)") (all-weaken is_word is_ink l word-ink s.word)
        (unfold is_ink in refl);
  parsed =
      parse-rip (l ++ text "(%rip)") l (rw s.is (no_register s.first _ s.no_percent))
        (rw s.is (no_immediate s.first _ s.no_dollar)) matched;
}
  where
    matched : match_rip (l ++ text "(%rip)") ≡ some l
    matched =
        unfold match_rip in
        rw
          (
            take_while-append is_word l (text "(%rip)") s.word (unfold is_word in refl),
            drop_while-append is_word l (text "(%rip)") s.word (unfold is_word in refl),
            s.is,
          )
          refl
