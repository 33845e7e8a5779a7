-- ===== src/Txt/Pattern.antt =====
-- The regular expressions of src/arch/x86_64/txt.c. Each is a function that says whether it matches the whole text, with
-- the groups that Str_RegexExtract would return: the C library's matcher takes the longest run of a class, and each run
-- here ends at a character outside its class.
use ivan_cc.Prelude.{
  ℕ, Bool, false, ◌==◌, not, ◌&&◌, ◌||◌, if◌then◌else◌, Option, none, some, [], ◌∷◌,
}
use ivan_cc.Prelude.Name.{Name, text, name_eq}
use ivan_cc.Str.Chars.{
  is_digit, is_alpha, is_alnum, is_hex, is_blank, take_while, drop_while, all, null,
}

-- [.A-Za-z0-9_$] and [.A-Za-z_$].
unfoldable pub is_word : ℕ → Bool
unfolding is_alnum
is_word c = is_alnum c || c == b'.' || c == b'_' || c == b'$'

unfoldable pub is_word_start : ℕ → Bool
unfolding is_alpha
is_word_start c = is_alpha c || c == b'.' || c == b'_' || c == b'$'

abbrev pub not_empty : (ℕ → Bool) → Name → Bool
not_empty p s = not (null s) && all p s

-- 0[xX][0-9A-Fa-f]+|[0-9]+
unfoldable pub is_magnitude : Name → Bool
is_magnitude (c ∷ d ∷ cs) =
    not_empty is_digit (c ∷ d ∷ cs)
    || (c == b'0' && (d == b'x' || d == b'X') && not_empty is_hex cs)
is_magnitude s = not_empty is_digit s

-- -?(0[xX][0-9A-Fa-f]+|[0-9]+)
unfoldable pub is_number : Name → Bool
is_number [] = false
is_number (c ∷ cs) = if c == b'-' then is_magnitude cs else is_magnitude (c ∷ cs)

-- [A-Za-z][A-Za-z0-9]*
unfoldable pub is_register : Name → Bool
is_register [] = false
is_register (c ∷ cs) = is_alpha c && all is_alnum cs

-- ^%([A-Za-z][A-Za-z0-9]*)$
unfoldable pub match_register : Name → Option Name
match_register [] = none
match_register (c ∷ cs) = if c == b'%' && is_register cs then some cs else none

-- ^[$](-?(0[xX][0-9A-Fa-f]+|[0-9]+))$
unfoldable pub match_immediate : Name → Option Name
match_immediate [] = none
match_immediate (c ∷ cs) = if c == b'$' && is_number cs then some cs else none

-- ^([.A-Za-z0-9_$]+)[(]%rip[)]$
unfoldable pub match_rip : Name → Option Name
match_rip s =
    let label = take_while is_word s in
    if not (null label) && name_eq (drop_while is_word s) (text "(%rip)") then some label else none

-- [(]%([A-Za-z][A-Za-z0-9]*)[)]$, the end of the next pattern.
unfoldable pub match_base : Name → Option Name
match_base (c ∷ d ∷ s) =
    let base = take_while is_alnum s in
    if c == b'(' && d == b'%' && is_register base && name_eq (drop_while is_alnum s) (text ")")
    then some base
    else none
match_base s = none

-- The optional group in front of the base, and the base.
abbrev pub behind_disp : Name → Name → Option (Name × Name)
behind_disp disp rest =
    if null disp || is_number disp
    then elim (match_base rest) [ none ↦ none | some base ↦ some (disp, base) ]
    else none

-- ^(-?(0[xX][0-9A-Fa-f]+|[0-9]+))?[(]%([A-Za-z][A-Za-z0-9]*)[)]$, with the first group and the third.
unfoldable pub match_memory : Name → Option (Name × Name)
match_memory s =
    behind_disp (take_while (λ c. not (c == b'(')) s) (drop_while (λ c. not (c == b'(')) s)

-- ^[.A-Za-z0-9_$]+$
unfoldable pub match_target : Name → Bool
match_target s = not_empty is_word s

abbrev pub starts_word : Name → Bool
starts_word [] = false
starts_word (c ∷ cs) = is_word_start c

-- What is behind the label, without the blanks.
abbrev pub behind_label : Name → Name → Option (Name × Name)
behind_label label [] = none
behind_label label (c ∷ rest) =
    if starts_word label && c == b':' then some (label, drop_while is_blank rest) else none

-- ^([.A-Za-z_$][.A-Za-z0-9_$]*):[ \t]*(.*)$
unfoldable pub match_label : Name → Option (Name × Name)
match_label s = behind_label (take_while is_word s) (drop_while is_word s)
