-- ===== src/Str/Extension.antt =====
-- Str_ChangeOrAppendExt of src/util/str.c.
use ivan_cc.Prelude.{
  ℕ, suc, ◌==◌, ltb, if◌then◌else◌, Option, none, some, [], ◌∷◌, ◌++◌, length, take,
}
use ivan_cc.Prelude.Name.{Name}

-- strrchr: the last place of `c`, from the place `i`.
unfoldable pub last_from : ℕ → ℕ → Name → Option ℕ
last_from c i [] = none
last_from c i (d ∷ str) = elim (last_from c (suc i) str) [
  | some j ↦ some j
  | none ↦ if d == c then some i else none
]

unfoldable pub strrchr : ℕ → Name → Option ℕ
unfolding last_from
strrchr c str = last_from c 0 str

-- `stem`: up to the last dot, unless there is none or a slash behind it.
abbrev stem_of : Option ℕ → Option ℕ → ℕ → ℕ
stem_of none slash len = len
stem_of (some dot) none len = dot
stem_of (some dot) (some slash) len = if ltb dot slash then len else dot

unfoldable pub change_or_append_ext : Name → Name → Name
unfolding strrchr
change_or_append_ext input suffix =
    take (stem_of (strrchr b'.' input) (strrchr b'/' input) (length input)) input ++ suffix
