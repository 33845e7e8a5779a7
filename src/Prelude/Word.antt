-- ===== src/Prelude/Word.antt =====
-- Machine words as native numbers: the w low bits of an integer in two's complement, and the
-- signed value of a bit pattern.
use Prim.Native.Nat.{ℕ, ◌-◌, ◌%◌, ◌^◌, ◌<◌}
use mathlib.Core.Path.{◌≡◌}
use native.Mathlib.Omega.{arith}
use ivan_cc.Prelude.Tests.{ltb, if◌then◌else◌}
use ivan_cc.Prelude.Int.{ℤ, pos, negsuc}

-- The pattern that a conversion of `z` to a w-bit word gives.
abbrev pub to_word : ℕ → ℤ → ℕ
to_word w (pos n) = n % 2 ^ w
to_word w (negsuc n) = 2 ^ w - 1 - n % 2 ^ w

-- The signed reading of a pattern below 2 ^ w.
abbrev pub signed : ℕ → ℕ → ℤ
signed w x = if ltb x (2 ^ (w - 1)) then pos x else negsuc (2 ^ w - 1 - x)

abbrev pub Fits : ℕ → ℤ → Type 0
Fits w (pos n) = n < 2 ^ (w - 1)
Fits w (negsuc n) = n < 2 ^ (w - 1)

pub signed-to_word_8 : (z : ℤ) → Fits 8 z → signed 8 (to_word 8 z) ≡ z
signed-to_word_8 (pos n) h = ground arith
signed-to_word_8 (negsuc n) h = ground arith

pub signed-to_word_32 : (z : ℤ) → Fits 32 z → signed 32 (to_word 32 z) ≡ z
signed-to_word_32 (pos n) h = ground arith
signed-to_word_32 (negsuc n) h = ground arith

pub signed-to_word_64 : (z : ℤ) → Fits 64 z → signed 64 (to_word 64 z) ≡ z
signed-to_word_64 (pos n) h = ground arith
signed-to_word_64 (negsuc n) h = ground arith
