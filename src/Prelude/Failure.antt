-- ===== src/Prelude/Failure.antt =====
-- What a call returns that may end the program: a value, or the error that ends it.
-- `Log_ShowErrorAt` and `Log_ShowError` print and exit, and a read through a null pointer is undefined: each is an
-- error here.
use Prim.Native.Nat.{ℕ}
use mathlib.Core.List.{List}
use mathlib.Core.Path.{◌≡◌, refl, ap}

pub data Error : Type 0 where
  not_an_lvalue : ℕ → Error
  unexpected_statement : ℕ → Error
  null_pointer : Error
  -- A loop that does not end, and arithmetic that leaves the range of an int.
  no_end int_overflow : Error
  -- The messages of the analysis, with the line.
  wrong_argument_count : ℕ → ℕ → ℕ → Error
  add_pointers subtract_pointer address_of_value no_pointer void_pointer not_assignable
        array_assignment :
      ℕ → Error
  -- The message of the table of string literals, with its size.
  too_many_strings : ℕ → Error
  -- The messages of the linker, and a write outside a buffer.
  unsupported_relocation : ℕ → Error
  multiple_definition undefined_symbol_of undefined_entry unreadable : List ℕ → Error
  out_of_bounds : Error
  -- The messages of the assembler.
  bad_mnemonic unknown_mnemonic too_many_operands bad_operand : List ℕ → Error
  -- The messages of the command line of the linker.
  usage : Error
  malformed_place : List ℕ → Error
  too_many_places : ℕ → Error

pub data Outcome {ℓ} (A : Type ℓ) : Type ℓ where
  ok : A → Outcome A
  err : Error → Outcome A

infixl 5 ◌>>=◌
-- An error skips the rest.
abbrev pub ◌>>=◌ {ℓ κ} : {A : Type ℓ} {B : Type κ} → Outcome A → (A → Outcome B) → Outcome B
err e >>= rest = err e
ok a >>= rest = rest a

-- Where a sequence returns, its first part does.
module _ {ℓ κ} {A : Type ℓ} {B : Type κ} where
  pub >>=-eq-ok :
      (m : Outcome A) (rest : A → Outcome B) {b : B}
      → (m >>= rest) ≡ ok b
      → (a : A) × (m ≡ ok a) × (rest a ≡ ok b)
  >>=-eq-ok (err e) rest h = cc
  >>=-eq-ok (ok a) rest h = (a, refl, h)

pub ok-injective {ℓ} : {A : Type ℓ} {a b : A} → ok a ≡ ok b → a ≡ b
ok-injective {a} e = ap (λ r. elim r [ ok x ↦ x | err _ ↦ a ]) e

-- What a call ends in: a value with the property `P`, or an error with the property `E`.
abbrev pub Ends {ℓ} : {A : Type ℓ} → (Error → Type 0) → (A → Type 0) → Outcome A → Type 0
Ends E P (ok a) = P a
Ends E P (err e) = E e

module _ {ℓ κ} {A : Type ℓ} {B : Type κ} (E : Error → Type 0) (P : A → Type 0)
    (Q : B → Type 0) where
  pub Ends->>= :
      (m : Outcome A) (rest : A → Outcome B)
      → Ends E P m
      → ((a : A) → P a → Ends E Q (rest a))
      → Ends E Q (m >>= rest)
  Ends->>= (ok a) rest h next = next a h
  Ends->>= (err e) rest h next = h

-- A weaker property, for an outcome with more errors.
pub Ends-weaken {ℓ} :
    {A : Type ℓ} (E E' : Error → Type 0) (P Q : A → Type 0) (m : Outcome A)
    → ((e : Error) → E e → E' e)
    → ((a : A) → P a → Q a)
    → Ends E P m
    → Ends E' Q m
Ends-weaken E E' P Q (ok a) f g h = g a h
Ends-weaken E E' P Q (err e) f g h = f e h

-- Two properties of one outcome.
pub Ends-both {ℓ} :
    {A : Type ℓ} (E E' : Error → Type 0) (P Q : A → Type 0) (m : Outcome A)
    → Ends E P m
    → Ends E' Q m
    → Ends E (λ a. P a × Q a) m
Ends-both E E' P Q (ok a) h g = (h, g)
Ends-both E E' P Q (err e) h g = h
