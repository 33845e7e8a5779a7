-- ===== src/Str/Number.antt =====
-- The numbers that the C library reads from a text: strtol and strtoull with base 0, and the text of `%d` and `%ld`.
use ivan_cc.Prelude.{
  ℕ, suc, ◌+◌, ◌-◌, ◌*◌, ◌%◌, ◌^◌, ◌&&◌, ◌||◌, ◌==◌, ltb, leb, if◌then◌else◌, [], ◌∷◌, ℤ, pos,
  negsuc, sub_ℕ,
}
use ivan_cc.Prelude.Name.{Name, decimal}
use ivan_cc.Str.Chars.{is_space, is_hex, drop_while, within}

-- The value of a digit or a letter, 36 for any other character.
unfoldable pub digit : ℕ → ℕ
digit c =
    if within b'0' b'9' c
    then c - 48
    else if within b'a' b'z' c
    then c - 87
    else if within b'A' b'Z' c
    then c - 55
    else 36

-- The digits of a base at the head of a text, behind the value `acc` of those before.
unfoldable pub digits_from : ℕ → ℕ → Name → ℕ
unfolding digit
digits_from base acc [] = acc
digits_from base acc (c ∷ cs) =
    let more = digits_from base (acc * base + digit c) cs in
    if ltb (digit c) base then more else acc

-- A number with its base: "0x" before a digit of base 16, "0" for base 8.
unfoldable pub magnitude : Name → ℕ
unfolding digits_from is_hex
magnitude (c ∷ d ∷ e ∷ cs) =
    if c == b'0' && (d == b'x' || d == b'X') && is_hex e
    then digits_from 16 0 (e ∷ cs)
    else digits_from (if c == b'0' then 8 else 10) 0 (c ∷ d ∷ e ∷ cs)
magnitude (c ∷ cs) = digits_from (if c == b'0' then 8 else 10) 0 (c ∷ cs)
magnitude [] = 0

-- strtol keeps to the range of long.
abbrev clamp_pos : ℕ → ℤ
clamp_pos n = pos (if ltb n (2 ^ 63) then n else 2 ^ 63 - 1)

abbrev clamp_neg : ℕ → ℤ
clamp_neg n = sub_ℕ 0 (if leb n (2 ^ 63) then n else 2 ^ 63)

unfoldable pub signed_number : Name → ℤ
signed_number [] = pos 0
signed_number (c ∷ cs) =
    if c == b'-'
    then clamp_neg (magnitude cs)
    else clamp_pos (magnitude (if c == b'+' then cs else c ∷ cs))

unfoldable pub strtol : Name → ℤ
strtol str = signed_number (drop_while is_space str)

-- strtoull: a value above the range is the largest one, and a minus sign negates modulo 2 ^ 64.
abbrev clamp_unsigned : ℕ → ℕ
clamp_unsigned n = if ltb n (2 ^ 64) then n else 2 ^ 64 - 1

unfoldable pub unsigned_number : Name → ℕ
unsigned_number [] = 0
unsigned_number (c ∷ cs) =
    if c == b'-'
    then if ltb (magnitude cs) (2 ^ 64) then (2 ^ 64 - magnitude cs) % 2 ^ 64 else 2 ^ 64 - 1
    else clamp_unsigned (magnitude (if c == b'+' then cs else c ∷ cs))

unfoldable pub strtoull : Name → ℕ
strtoull str = unsigned_number (drop_while is_space str)

-- `%d` and `%ld`.
unfoldable pub decimal_ℤ : ℤ → Name
decimal_ℤ (pos n) = decimal n
decimal_ℤ (negsuc n) = b'-' ∷ decimal (suc n)
