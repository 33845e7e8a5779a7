-- ===== src/Str/Tests.antt =====
-- Strings on which the functions are followed by hand.
use ivan_cc.Prelude.{suc, ◌≤◌, length, ◌≡◌, refl, pos, negsuc, [], ◌∷◌}
use ivan_cc.Prelude.Name.{text}
use ivan_cc.Str.Split.{split}
use ivan_cc.Str.Trim.{trim}
use ivan_cc.Str.Number.{strtol, strtoull, signed_number, unsigned_number, magnitude}
use ivan_cc.Str.Pieces.{join, join-split}
use ivan_cc.Str.Chars.{drop_while, is_space}
use ivan_cc.Str.Unescape.{unescape, unescape-Fits}
use ivan_cc.Str.Extension.{change_or_append_ext}

split_run : split (text "a,bc,,") (text ",") ≡ text "a" ∷ text "bc" ∷ [] ∷ [] ∷ []
unfolding split
split_run = refl

trim_run : trim (text "  a b ") ≡ text "a b"
unfolding trim
trim_run = refl

hex_run : strtol (text " -0x1Fz") ≡ negsuc 30
unfolding strtol signed_number magnitude drop_while is_space
hex_run = refl

octal_run : strtoull (text "010") ≡ 8
unfolding strtoull unsigned_number magnitude drop_while is_space
octal_run = refl

zero_run : strtol (text "0") ≡ pos 0
unfolding strtol signed_number magnitude drop_while is_space
zero_run = refl

unescape_run : unescape (text "a\\n\\0b\"c") ≡ 97 ∷ 10 ∷ 0 ∷ 98 ∷ []
unfolding unescape
unescape_run = refl

ext_run : change_or_append_ext (text "a.b/main") (text ".o") ≡ text "a.b/main.o"
unfolding change_or_append_ext
ext_run = refl

ext_dot_run : change_or_append_ext (text "a/main.c") (text ".s") ≡ text "a/main.s"
unfolding change_or_append_ext
ext_dot_run = refl

join-split_example : join (text ", ") (split (text "a, b, ") (text ", ")) ≡ text "a, b, "
join-split_example = join-split 44 (32 ∷ []) (text "a, b, ")

unescape-Fits_example : suc (length (unescape (text "a\\n\\"))) ≤ suc (length (text "a\\n\\"))
unescape-Fits_example = unescape-Fits (text "a\\n\\")
