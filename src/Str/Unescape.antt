-- ===== src/Str/Unescape.antt =====
-- Str_Unescape of src/util/str.c.
use ivan_cc.Prelude.{ℕ, suc, ◌≤◌, ◌==◌, if◌then◌else◌, List, [], ◌∷◌, length, arith}
use ivan_cc.Prelude.Name.{Name}

-- The byte of the escape `\c`.
unfoldable pub escaped : ℕ → ℕ
escaped c =
    if c == b'n'
    then 10
    else if c == b't'
    then 9
    else if c == b'r'
    then 13
    else if c == b'0'
    then 0
    else c

-- The loop over the text, up to the closing quote. A backslash at the end of the text stands for itself.
unfoldable pub unescape : Name → List ℕ
unfolding escaped
unescape [] = []
unescape (c ∷ []) = if c == b'"' then [] else c ∷ []
unescape (c ∷ d ∷ cs) =
    let plain = c ∷ unescape (d ∷ cs) in
    let escape = escaped d ∷ unescape cs in
    if c == b'"' then [] else if c == 92 then escape else plain

-- The bytes and the NUL behind them fit in the buffer of Str_Unescape, which has room for the text and one byte more.
pub unescape-Fits : (str : Name) → suc (length (unescape str)) ≤ suc (length str)
unfolding unescape
unescape-Fits [] = omega arith
unescape-Fits (c ∷ []) = ground arith
unescape-Fits (c ∷ d ∷ cs) = ground (arith, unescape-Fits cs, unescape-Fits (d ∷ cs))
