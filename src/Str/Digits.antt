-- ===== src/Str/Digits.antt =====
-- What strtol reads back from the text of `%d` and `%ld`.
use ivan_cc.Prelude.{
  Bool, ◌||◌, ℕ, zero, suc, ◌+◌, ◌*◌, ◌/◌, ◌%◌, ◌^◌, ◌<◌, ◌≤◌, ◌&&◌, true, false, ◌==◌, ltb,
  if◌then◌else◌, [], ◌∷◌, ◌++◌, ◌≡◌, refl, ap, sym, ◌∙◌, Bool-cases, inl, inr, arith, ℤ, pos,
  negsuc, Fits, lt→ltb, le→leb,
}
use ivan_cc.Prelude.Name.{Name, decimal, decimal_fuel}
use ivan_cc.Str.Chars.{
  is_space, is_digit, is_hex, drop_while, all, all-head, all-tail, all-append, all-cons,
  ne_of_class,
}
use ivan_cc.Str.Number.{digit, digits_from, magnitude, signed_number, strtol, decimal_ℤ}

digit-lt : (c : ℕ) → is_digit c ≡ true → ltb (digit c) 10 ≡ true
unfolding digit is_digit
digit-lt c h = ground arith

digits_from-append :
    (acc : ℕ) (xs ys : Name)
    → all is_digit xs ≡ true
    → digits_from 10 acc (xs ++ ys) ≡ digits_from 10 (digits_from 10 acc xs) ys
unfolding digits_from
digits_from-append acc [] ys h = refl
digits_from-append acc (x ∷ xs) ys h =
    rw (digit-lt x (all-head is_digit x xs h))
      (digits_from-append (acc * 10 + digit x) xs ys (all-tail is_digit x xs h))

is_digit-add : (d : ℕ) → d < 10 → is_digit (48 + d) ≡ true
unfolding is_digit
is_digit-add d h = ground arith

digit-add : (d : ℕ) → d < 10 → digit (48 + d) ≡ d
unfolding digit
digit-add d h = ground arith

all-is_digit-decimal_fuel : (f n : ℕ) → n < f → all is_digit (decimal_fuel f n) ≡ true
unfolding decimal_fuel
all-is_digit-decimal_fuel zero n h = elim h [ ]
all-is_digit-decimal_fuel (suc f) n h = elim (Bool-cases (ltb n 10)) [
  | inl e ↦ rw e (all-cons is_digit (48 + n) [] (is_digit-add n (ground arith)) refl)
  | inr e ↦ rw e (
      all-append is_digit (decimal_fuel f (n / 10)) ((48 + n % 10) ∷ [])
        (all-is_digit-decimal_fuel f (n / 10) (ground arith))
        (all-cons is_digit (48 + n % 10) [] (is_digit-add (n % 10) (omega arith)) refl))
]

pub all-is_digit-decimal : (n : ℕ) → all is_digit (decimal n) ≡ true
unfolding decimal
all-is_digit-decimal n = all-is_digit-decimal_fuel (suc n) n (omega arith)

one_digit : (acc d : ℕ) → d < 10 → digits_from 10 acc ((48 + d) ∷ []) ≡ acc * 10 + d
unfolding digits_from
one_digit acc d h = rw (digit-add d h) (rw (lt→ltb d 10 h) refl)

digits_from-decimal_fuel : (f n : ℕ) → n < f → digits_from 10 0 (decimal_fuel f n) ≡ n
unfolding decimal_fuel
digits_from-decimal_fuel zero n h = elim h [ ]
digits_from-decimal_fuel (suc f) n h = elim (Bool-cases (ltb n 10)) [
  | inl e ↦ rw e (one_digit 0 n (ground arith) ∙ omega arith)
  | inr e ↦
      let l : n / 10 < f = ground arith in
      rw
        (
          e,
          digits_from-append 0 (decimal_fuel f (n / 10)) ((48 + n % 10) ∷ [])
              (all-is_digit-decimal_fuel f (n / 10) l),
          digits_from-decimal_fuel f (n / 10) l,
        )
        (one_digit (n / 10) (n % 10) (omega arith) ∙ omega arith)
]

-- The first digit of a number above 0 is not 0.
record Leading (s : Name) : Type 0 where
  pub first : ℕ
  pub rest : Name
  pub is : s ≡ first ∷ rest
  pub digit : is_digit first ≡ true
  pub ne_zero : (first == b'0') ≡ false

Leading-append : (s t : Name) → Leading s → Leading (s ++ t)
Leading-append s t l = record {
  first = l.first;
  rest = l.rest ++ t;
  is = ap (λ z. z ++ t) l.is;
  digit = l.digit;
  ne_zero = l.ne_zero;
}

decimal_fuel-Leading : (f n : ℕ) → n < f → 0 < n → Leading (decimal_fuel f n)
unfolding decimal_fuel
decimal_fuel-Leading zero n h l = elim h [ ]
decimal_fuel-Leading (suc f) n h l = elim (Bool-cases (ltb n 10)) [
  | inl e ↦ rw e (record {
    first = 48 + n;
    rest = [];
    is = refl;
    digit = is_digit-add n (ground arith);
    ne_zero = ground arith;
  })
  | inr e ↦ rw e (
      Leading-append (decimal_fuel f (n / 10)) ((48 + n % 10) ∷ [])
        (decimal_fuel-Leading f (n / 10) (ground arith) (ground arith)))
]

ten : (t : Bool) (f : ℕ → ℕ) → t ≡ false → f (if t then 8 else 10) ≡ f 10
ten t f h = rw h refl

base_ten :
    (t u v : Bool) (x : ℕ) (f : ℕ → ℕ)
    → t ≡ false
    → (if t && u && v then x else f (if t then 8 else 10)) ≡ f 10
base_ten t u v x f h = rw h refl

magnitude-decimal_base :
    (c : ℕ) (cs : Name) → (c == b'0') ≡ false → magnitude (c ∷ cs) ≡ digits_from 10 0 (c ∷ cs)
unfolding magnitude
magnitude-decimal_base c [] h = ten (c == b'0') (λ b. digits_from b 0 (c ∷ [])) h
magnitude-decimal_base c (d ∷ []) h = ten (c == b'0') (λ b. digits_from b 0 (c ∷ d ∷ [])) h
magnitude-decimal_base c (d ∷ e ∷ cs) h =
    base_ten (c == b'0') (d == b'x' || d == b'X') (is_hex e) (digits_from 16 0 (e ∷ cs))
      (λ b. digits_from b 0 (c ∷ d ∷ e ∷ cs)) h

magnitude-decimal : (n : ℕ) → magnitude (decimal n) ≡ n
unfolding decimal
magnitude-decimal zero = unfold magnitude in refl
magnitude-decimal (suc n) =
    let l = decimal_fuel-Leading (suc (suc n)) (suc n) (omega arith) (omega arith) in
    ap magnitude l.is
    ∙ (magnitude-decimal_base l.first l.rest l.ne_zero
        ∙ (ap (digits_from 10 0) (sym l.is)
            ∙ digits_from-decimal_fuel (suc (suc n)) (suc n) (omega arith)))

-- The text of a number begins with a digit.
pub record Starts (s : Name) : Type 0 where
  pub first : ℕ
  pub rest : Name
  pub is : s ≡ first ∷ rest
  pub digit : is_digit first ≡ true

pub decimal-Starts : (n : ℕ) → Starts (decimal n)
unfolding decimal
decimal-Starts zero = record {
  first = 48;
  rest = [];
  is = unfold decimal in refl;
  digit = unfold is_digit in refl;
}
decimal-Starts (suc n) =
    let l = decimal_fuel-Leading (suc (suc n)) (suc n) (omega arith) (omega arith) in
    record { first = l.first; rest = l.rest; is = l.is; digit = l.digit }

is_space-digit : (c : ℕ) → is_digit c ≡ true → is_space c ≡ false
unfolding is_digit is_space
is_space-digit c h = ground arith

strtol-digit :
    (c : ℕ) (cs : Name)
    → is_digit c ≡ true
    → magnitude (c ∷ cs) < 2 ^ 63
    → strtol (c ∷ cs) ≡ pos (magnitude (c ∷ cs))
unfolding drop_while strtol signed_number
strtol-digit c cs d l =
    let no_space : is_space c ≡ false = is_space-digit c d in
    let no_minus : (c == b'-') ≡ false = ne_of_class is_digit c b'-' d (unfold is_digit in refl) in
    let no_plus : (c == b'+') ≡ false = ne_of_class is_digit c b'+' d (unfold is_digit in refl) in
    let small : ltb (magnitude (c ∷ cs)) (2 ^ 63) ≡ true = lt→ltb _ _ l in
    rw (no_space, no_minus, no_plus, small) refl

strtol-digits : (s : Name) → Starts s → magnitude s < 2 ^ 63 → strtol s ≡ pos (magnitude s)
strtol-digits s w l = rw w.is (computed w.first w.rest w.digit (ap magnitude (sym w.is)))
  where
    computed :
        (c : ℕ) (cs : Name)
        → is_digit c ≡ true
        → magnitude (c ∷ cs) ≡ magnitude s
        → strtol (c ∷ cs) ≡ pos (magnitude (c ∷ cs))
    computed c cs d e = strtol-digit c cs d (rw e l)

strtol-minus :
    (s : Name) (n : ℕ) → magnitude s ≡ suc n → suc n ≤ 2 ^ 63 → strtol (b'-' ∷ s) ≡ negsuc n
unfolding drop_while strtol signed_number is_space
strtol-minus s n e l = rw (e, le→leb (suc n) (2 ^ 63) l) (ground arith)

-- strtol, with base 0, reads the text of `%ld` back as the number, for every number that a long holds.
pub strtol-decimal_ℤ : (z : ℤ) → Fits 64 z → strtol (decimal_ℤ z) ≡ z
unfolding decimal_ℤ
strtol-decimal_ℤ (pos n) h =
    strtol-digits (decimal n) (decimal-Starts n) (rw (magnitude-decimal n) h)
    ∙ ap pos (magnitude-decimal n)
strtol-decimal_ℤ (negsuc n) h =
    strtol-minus (decimal (suc n)) n (magnitude-decimal (suc n)) (omega arith)
