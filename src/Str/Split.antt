-- ===== src/Str/Split.antt =====
-- Str_StartsWith and Str_Split of src/util/str.c.
use ivan_cc.Prelude.{
  ℕ, zero, suc, ◌-◌, Bool, true, false, ◌&&◌, ◌==◌, if◌then◌else◌, List, [], ◌∷◌, length,
}
use ivan_cc.Prelude.Name.{Name}

unfoldable pub starts_with : Name → Name → Bool
starts_with str [] = true
starts_with [] (p ∷ prefix) = false
starts_with (c ∷ str) (p ∷ prefix) = c == p && starts_with str prefix

-- `c` in front of the first piece.
abbrev pub into_first : ℕ → List Name → List Name
into_first c [] = (c ∷ []) ∷ []
into_first c (piece ∷ pieces) = (c ∷ piece) ∷ pieces

-- The loop of Str_Split. At a place where strstr finds `sep` a piece ends, and the search goes on behind the
-- occurrence, `skip` characters further. `sep` is not empty: the code would loop on an empty one.
unfoldable pub split_from : Name → ℕ → Name → List Name
unfolding starts_with
split_from sep skip [] = [] ∷ []
split_from sep (suc skip) (c ∷ str) = split_from sep skip str
split_from sep zero (c ∷ str) =
    let hit = starts_with (c ∷ str) sep in
    let rest = split_from sep (if hit then length sep - 1 else 0) str in
    if hit then [] ∷ rest else into_first c rest

unfoldable pub split : Name → Name → List Name
unfolding split_from
split str sep = split_from sep 0 str
