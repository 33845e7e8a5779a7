-- ===== src/Str/Trim.antt =====
-- Str_Trim of src/util/str.c.
use ivan_cc.Prelude.{◌&&◌, if◌then◌else◌, [], ◌∷◌}
use ivan_cc.Prelude.Name.{Name}
use ivan_cc.Str.Chars.{is_space, drop_while, null}

-- The second loop, from the end: a space goes if all behind it has gone.
unfoldable pub trim_end : Name → Name
unfolding is_space
trim_end [] = []
trim_end (c ∷ str) = let rest = trim_end str in if is_space c && null rest then [] else c ∷ rest

unfoldable pub trim : Name → Name
unfolding trim_end drop_while is_space
trim str = trim_end (drop_while is_space str)
