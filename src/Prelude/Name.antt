-- ===== src/Prelude/Name.antt =====
-- C strings as lists of bytes: `strcmp(a, b) == 0`, and the text that `printf` makes of `%d`.
use Prim.Native.Nat.{ℕ, zero, suc, ◌+◌, ◌-◌, ◌*◌, ◌/◌, ◌%◌, ◌<◌}
use Prim.Native.Char.{code}
use Prim.Native.String.{String}
use mathlib.Core.Path.{◌≡◌, refl, sym, ap, ◌∙◌}
use mathlib.Core.Bool.{Bool, true, false, ◌&&◌}
use mathlib.Core.Logic.{◌≢◌}
use mathlib.Core.List.{List, [], ◌∷◌, ◌++◌}
use native.Mathlib.Omega.{arith}
use ivan_cc.Prelude.Tests.{ltb, ◌==◌, if◌then◌else◌}

abbrev pub Name : Type 0
Name = List ℕ

-- The bytes of an ASCII literal.
abbrev pub text : String → Name
text String.[] = []
text (String.◌∷◌ c s) = code c ∷ text s

abbrev pub name_eq : Name → Name → Bool
name_eq [] [] = true
name_eq [] (y ∷ ys) = false
name_eq (x ∷ xs) [] = false
name_eq (x ∷ xs) (y ∷ ys) = x == y && name_eq xs ys

pub name_eq_refl : (a : Name) → name_eq a a ≡ true
name_eq_refl [] = refl
name_eq_refl (x ∷ xs) = ground (arith, name_eq_refl xs)

pub eq_of_name_eq : (a b : Name) → name_eq a b ≡ true → a ≡ b
eq_of_name_eq [] [] h = refl
eq_of_name_eq [] (y ∷ ys) h = cc
eq_of_name_eq (x ∷ xs) [] h = cc
eq_of_name_eq (x ∷ xs) (y ∷ ys) h = ground (arith, eq_of_name_eq xs ys)

-- `%d` of a number that is not negative. The fuel is above the number, so it is not used up.
unfoldable pub decimal_fuel : ℕ → ℕ → Name
decimal_fuel zero n = []
decimal_fuel (suc f) n =
    let more = decimal_fuel f (n / 10) ++ (48 + n % 10) ∷ [] in
    if ltb n 10 then (48 + n) ∷ [] else more

unfoldable pub decimal : ℕ → Name
unfolding decimal_fuel
decimal n = decimal_fuel (suc n) n

-- The number that a run of digits stands for, as a left inverse.
value_from : ℕ → Name → ℕ
value_from acc [] = acc
value_from acc (d ∷ ds) = value_from (acc * 10 + (d - 48)) ds

value_from-append :
    (acc : ℕ) (xs ys : Name) → value_from acc (xs ++ ys) ≡ value_from (value_from acc xs) ys
unfolding value_from
value_from-append acc [] ys = refl
value_from-append acc (x ∷ xs) ys = value_from-append (acc * 10 + (x - 48)) xs ys

value-decimal_fuel : (f n : ℕ) → n < f → value_from 0 (decimal_fuel f n) ≡ n
unfolding value_from decimal_fuel
value-decimal_fuel zero n h = elim h [ ]
value-decimal_fuel (suc f) n h = ground (
  arith,
  value_from-append 0 (decimal_fuel f (n / 10)) ((48 + n % 10) ∷ []),
  value-decimal_fuel f (n / 10),
)

pub decimal-injective : (m n : ℕ) → decimal m ≡ decimal n → m ≡ n
unfolding decimal
decimal-injective m n e =
    sym (value-decimal_fuel (suc m) m (omega arith))
    ∙ (ap (value_from 0) e ∙ value-decimal_fuel (suc n) n (omega arith))

-- A format with one `%d` at its end, such as ".L.end.%d".
abbrev pub numbered : String → ℕ → Name
numbered prefix n = text prefix ++ decimal n

numbered_run : numbered ".L.end." 207 ≡ text ".L.end.207"
unfolding decimal
numbered_run = refl

pub append-cancel : (p a b : Name) → (p ++ a) ≡ (p ++ b) → a ≡ b
append-cancel [] a b e = e
append-cancel (x ∷ p) a b e = append-cancel p a b (cc)

pub name_eq-numbered :
    (s : String) (m n : ℕ) → m ≢ n → name_eq (numbered s m) (numbered s n) ≡ false
name_eq-numbered s m n ne = ground (
  arith,
  eq_of_name_eq (numbered s m) (numbered s n),
  append-cancel (text s) (decimal m) (decimal n),
  decimal-injective m n,
)
