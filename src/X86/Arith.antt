-- ===== src/X86/Arith.antt =====
-- What the machine's arithmetic on 64-bit patterns says of the integers that they stand for.
use native.Mathlib.Nat.{mul_comm}
use ivan_cc.Prelude.{
  ℕ, suc, ◌+◌, ◌-◌, ◌*◌, ◌/◌, ◌%◌, ◌^◌, Bool, true, false, ◌||◌, none, some, ◌≡◌, sym, ◌∙◌, ap, ℤ,
  pos, negsuc, sub_ℕ, pos_part, neg_part, ◌+ℤ◌, ◌-ℤ◌, ◌*ℤ◌, ◌/ℤ◌, ◌%ℤ◌, ltb_ℤ, leb_ℤ, to_word,
  signed, Fits, ltb, ◌==◌, if◌then◌else◌, arith,
}
use ivan_cc.Asm.Types.{Reg}
use ivan_cc.X86.Machine.{
  Machine, word_mod, compare_flags, differ, signed_pair, write, idiv, is_zero, in_range, bit,
}

pub to_word-+ :
    (a b : ℤ)
    → Fits 64 a
    → Fits 64 b
    → (to_word 64 a + to_word 64 b) % word_mod ≡ to_word 64 (a +ℤ b)
unfolding ◌+ℤ◌
to_word-+ (pos a) (pos b) ha hb = ground arith
to_word-+ (pos a) (negsuc b) ha hb = ground arith
to_word-+ (negsuc a) (pos b) ha hb = ground arith
to_word-+ (negsuc a) (negsuc b) ha hb = ground arith

pub to_word-- :
    (a b : ℤ)
    → Fits 64 a
    → Fits 64 b
    → (to_word 64 a + word_mod - to_word 64 b) % word_mod ≡ to_word 64 (a -ℤ b)
unfolding ◌-ℤ◌
to_word-- (pos a) (pos b) ha hb = ground arith
to_word-- (pos a) (negsuc b) ha hb = ground arith
to_word-- (negsuc a) (pos b) ha hb = ground arith
to_word-- (negsuc a) (negsuc b) ha hb = ground arith

pub to_word-neg :
    (a : ℤ) → Fits 64 a → (word_mod - to_word 64 a) % word_mod ≡ to_word 64 (pos 0 -ℤ a)
unfolding ◌-ℤ◌
to_word-neg (pos a) ha = ground arith
to_word-neg (negsuc a) ha = ground arith

-- The conditions after `cmp` are those of the signed values.
pub compare_flags-eq :
    (a b : ℤ)
    → Fits 64 a
    → Fits 64 b
    → (compare_flags (to_word 64 a) (to_word 64 b)).zf
      ≡ (pos_part a + neg_part b == pos_part b + neg_part a)
unfolding compare_flags
compare_flags-eq (pos a) (pos b) ha hb = ground arith
compare_flags-eq (pos a) (negsuc b) ha hb = ground arith
compare_flags-eq (negsuc a) (pos b) ha hb = ground arith
compare_flags-eq (negsuc a) (negsuc b) ha hb = ground arith

pub compare_flags-lt :
    (a b : ℤ)
    → Fits 64 a
    → Fits 64 b
    → let f = compare_flags (to_word 64 a) (to_word 64 b) in differ f.sf f.ovf ≡ ltb_ℤ a b
unfolding compare_flags
compare_flags-lt (pos a) (pos b) ha hb = ground arith
compare_flags-lt (pos a) (negsuc b) ha hb = ground arith
compare_flags-lt (negsuc a) (pos b) ha hb = ground arith
compare_flags-lt (negsuc a) (negsuc b) ha hb = ground arith

pub compare_flags-le :
    (a b : ℤ)
    → Fits 64 a
    → Fits 64 b
    → let f = compare_flags (to_word 64 a) (to_word 64 b) in (f.zf || differ f.sf f.ovf) ≡ leb_ℤ a b
compare_flags-le a b ha hb = ground (arith, compare_flags-eq a b ha hb, compare_flags-lt a b ha hb)

-- After `cqo` the pair %rdx:%rax stands for the same integer as %rax.
pub signed_pair-cqo :
    (a : ℤ)
    → Fits 64 a
    → signed_pair (if ltb (to_word 64 a) (2 ^ 63) then 0 else word_mod - 1) (to_word 64 a) ≡ a
unfolding signed_pair
signed_pair-cqo (pos a) ha = ground arith
signed_pair-cqo (negsuc a) ha = ground arith

-- A product by one part of a number is the rest of the product by the whole.
split_mul : (a b c w : ℕ) → b + c ≡ w → a * b + a * c ≡ a * w
split_mul a b c w e = rw (← e) (omega arith)

mul_of_parts :
    (a b c : ℕ) → b + c ≡ word_mod → a * b % word_mod ≡ (word_mod - a * c % word_mod) % word_mod
mul_of_parts a b c e = omega (arith, split_mul a b c word_mod e)

mul_both : (a b c d : ℕ) → a + c ≡ word_mod → b + d ≡ word_mod → a * b % word_mod ≡ c * d % word_mod
mul_both a b c d e f = omega (arith, split_mul a b d word_mod f, ap (λ (t : ℕ). t * d) e)

to_word-sub_ℕ : (k : ℕ) → to_word 64 (sub_ℕ 0 k) ≡ (word_mod - k % word_mod) % word_mod
to_word-sub_ℕ k = ground arith

-- Multiplication of patterns is that of the integers, modulo 2 ^ 64.
pub to_word-* :
    (a b : ℤ) → Fits 64 a → Fits 64 b → to_word 64 a * to_word 64 b % word_mod ≡ to_word 64 (a *ℤ b)
unfolding ◌*ℤ◌
to_word-* (pos a) (pos b) ha hb = ground arith
to_word-* (pos a) (negsuc b) ha hb =
    let c = word_mod - 1 - b % word_mod in
    let e : a % word_mod ≡ a = omega arith in
    mul_of_parts (a % word_mod) c (suc b) (omega arith)
    ∙ (ap (λ (t : ℕ). (word_mod - t * suc b % word_mod) % word_mod) e
        ∙ sym (to_word-sub_ℕ (a * suc b)))
to_word-* (negsuc a) (pos b) ha hb =
    let c = word_mod - 1 - a % word_mod in
    let e : b % word_mod ≡ b = omega arith in
    ap (λ (t : ℕ). t % word_mod) (mul_comm c (b % word_mod))
    ∙ (mul_of_parts (b % word_mod) c (suc a) (omega arith)
        ∙ (ap (λ (t : ℕ). (word_mod - t * suc a % word_mod) % word_mod) e
            ∙ (ap (λ (t : ℕ). (word_mod - t % word_mod) % word_mod) (mul_comm b (suc a))
                ∙ sym (to_word-sub_ℕ (suc a * b)))))
to_word-* (negsuc a) (negsuc b) ha hb =
    mul_both (word_mod - 1 - a % word_mod) (word_mod - 1 - b % word_mod) (suc a) (suc b)
      (omega arith) (omega arith)

-- The low byte and the low half of a pattern are the conversions to `char` and `int`.
pub to_word-low_8 : (a : ℤ) → to_word 64 a % 2 ^ 8 ≡ to_word 8 a
to_word-low_8 (pos a) = ground arith
to_word-low_8 (negsuc a) = ground arith

pub to_word-low_32 : (a : ℤ) → to_word 64 a % 2 ^ 32 ≡ to_word 32 a
to_word-low_32 (pos a) = ground arith
to_word-low_32 (negsuc a) = ground arith

-- A division that does not fault leaves the quotient in %rax and the remainder in %rdx.
pub idiv_lem :
    (d : ℕ) (m : Machine) (a b : ℤ)
    → signed_pair (m.regs Reg.rdx) (m.regs Reg.rax) ≡ a
    → signed 64 d ≡ b
    → is_zero b ≡ false
    → in_range (a /ℤ b) ≡ true
    → idiv d m
      ≡ some (record m {
        regs = write (write m.regs Reg.rax (to_word 64 (a /ℤ b))) Reg.rdx (to_word 64 (a %ℤ b));
        flags = none;
      })
unfolding idiv
idiv_lem d m a b ea eb nz r = rw (ea, eb, nz, r)

-- A byte that a condition sets, read back with zeros above it.
pub low_bit :
    (x : ℕ) (c : Bool) → (x / 256 * 256 + bit c) % 256 ≡ to_word 64 (if c then pos 1 else pos 0)
low_bit x true = omega arith
low_bit x false = omega arith

-- A comparison with 0 sets the zero flag for 0 only.
pub compare_flags-zero : (a : ℤ) → Fits 64 a → (compare_flags (to_word 64 a) 0).zf ≡ is_zero a
unfolding compare_flags
compare_flags-zero (pos a) ha = ground arith
compare_flags-zero (negsuc a) ha = ground arith
