-- ===== src/Txt/Constants.antt =====
-- The parser reads back the text of an immediate.
use mathlib.Core.Path.{subst}
use ivan_cc.Prelude.{
  ℕ, suc, ◌==◌, true, false, [], ◌∷◌, ◌≡◌, refl, ap, ◌∙◌, some, ℤ, pos, negsuc, Fits,
}
use ivan_cc.Prelude.Name.{Name, decimal}
use ivan_cc.Asm.Emit.{imm}
use ivan_cc.Str.Chars.{is_digit, all, all-cons, all-weaken, ne_of_class}
use ivan_cc.Str.Number.{decimal_ℤ}
use ivan_cc.Str.Digits.{Starts, decimal-Starts, strtol-decimal_ℤ, all-is_digit-decimal}
use ivan_cc.Txt.Pattern.{is_number, is_magnitude, match_register, match_immediate}
use ivan_cc.Txt.Operand.{parse_operand}
use ivan_cc.Txt.Scan.{is_ink, digit-alnum}
use ivan_cc.Txt.Registers.{Reads, alnum-ink, parse-immediate}

is_magnitude-digits :
    (c : ℕ) (cs : Name) → all is_digit (c ∷ cs) ≡ true → is_magnitude (c ∷ cs) ≡ true
unfolding is_magnitude
is_magnitude-digits c [] h = h
is_magnitude-digits c (d ∷ cs) h = rw h refl

magnitude : (s : Name) → Starts s → all is_digit s ≡ true → is_magnitude s ≡ true
magnitude s w h =
    rw w.is (is_magnitude-digits w.first w.rest (subst (λ z. all is_digit z ≡ true) w.is h))

pub number : (s : Name) → Starts s → all is_digit s ≡ true → is_number s ≡ true
unfolding is_number
number s w h =
    let minus : (w.first == b'-') ≡ false =
      ne_of_class is_digit w.first b'-' w.digit (unfold is_digit in refl) in
    rw (w.is, minus)
      (is_magnitude-digits w.first w.rest (subst (λ z. all is_digit z ≡ true) w.is h))

pub is_number-decimal_ℤ : (z : ℤ) → is_number (decimal_ℤ z) ≡ true
unfolding decimal_ℤ is_number
is_number-decimal_ℤ (pos n) = number (decimal n) (decimal-Starts n) (all-is_digit-decimal n)
is_number-decimal_ℤ (negsuc n) =
    magnitude (decimal (suc n)) (decimal-Starts (suc n)) (all-is_digit-decimal (suc n))

digit-ink : (c : ℕ) → is_digit c ≡ true → is_ink c ≡ true
digit-ink c h = alnum-ink c (digit-alnum c h)

pub decimal_ℤ-ink : (z : ℤ) → all is_ink (decimal_ℤ z) ≡ true
unfolding decimal_ℤ
decimal_ℤ-ink (pos n) = all-weaken is_digit is_ink (decimal n) digit-ink (all-is_digit-decimal n)
decimal_ℤ-ink (negsuc n) =
    all-cons is_ink b'-' (decimal (suc n)) (unfold is_ink in refl)
      (all-weaken is_digit is_ink (decimal (suc n)) digit-ink (all-is_digit-decimal (suc n)))

pub immediate-Reads : (v : ℤ) → Fits 64 v → Reads (b'$' ∷ decimal_ℤ v) (imm v)
immediate-Reads v h = record {
  first = b'$';
  rest = decimal_ℤ v;
  is = refl;
  ink = all-cons is_ink b'$' (decimal_ℤ v) (unfold is_ink in refl) (decimal_ℤ-ink v);
  parsed = parsed;
}
  where
    parsed : parse_operand (b'$' ∷ decimal_ℤ v) ≡ some (imm v)
    parsed =
        parse-immediate (b'$' ∷ decimal_ℤ v) (decimal_ℤ v) (unfold match_register in refl)
          (unfold match_immediate in rw (is_number-decimal_ℤ v) refl)
        ∙ ap (λ z. some (imm z)) (strtol-decimal_ℤ v h)
