-- ===== src/Txt/Ends.antt =====
-- The lines behind labels: Txt_x86_64_Att_ParseLine calls itself on shorter and shorter texts.
use mathlib.Core.Option.{some-injective}
use ivan_cc.Prelude.{
  ℕ, zero, suc, ◌<◌, ◌≤◌, ◌==◌, Bool, true, false, not, ◌&&◌, if◌then◌else◌, Option, none, some,
  Option-cases, List, [], ◌∷◌, ◌≡◌, refl, ap, length, Outcome, ok, arith, inl, inr, Bool-cases,
}
use ivan_cc.Prelude.Name.{Name}
use ivan_cc.Asm.Types.{Item}
use ivan_cc.Asm.Emit.{emit_label}
use ivan_cc.Str.Chars.{is_space, is_blank, null, take_while, drop_while}
use ivan_cc.Str.Trim.{trim, trim_end}
use ivan_cc.Txt.Pattern.{is_word, match_label, behind_label, starts_word}
use ivan_cc.Txt.Line.{strip_comment, dispatch, parse_line, parse_line_fuel}

drop_while-le : (p : ℕ → Bool) (s : Name) → length (drop_while p s) ≤ length s
unfolding drop_while
drop_while-le p [] = omega arith
drop_while-le p (c ∷ s) = ground (arith, drop_while-le p s)

strip_comment-le : (inq : Bool) (s : Name) → length (strip_comment inq s) ≤ length s
unfolding strip_comment
strip_comment-le inq [] = omega arith
strip_comment-le inq (c ∷ s) = elim (Bool-cases (c == b'#' && not inq)) [
  | inl h ↦ rw h (omega arith)
  | inr h ↦ rw h (omega (arith, strip_comment-le (if c == b'"' then not inq else inq) s))
]

trim_end-le : (s : Name) → length (trim_end s) ≤ length s
unfolding trim_end
trim_end-le [] = omega arith
trim_end-le (c ∷ s) = elim (Bool-cases (is_space c && null (trim_end s))) [
  | inl h ↦ rw h (omega arith)
  | inr h ↦ rw h (omega (arith, trim_end-le s))
]

trim-le : (s : Name) → length (trim s) ≤ length s
unfolding trim
trim-le s = omega (arith, trim_end-le (drop_while is_space s), drop_while-le is_space s)

behind_label-lt : (l s : Name) (m : Name × Name) → behind_label l s ≡ some m → length m.1 < length s
behind_label-lt l [] m h = cc
behind_label-lt l (c ∷ s) m h = elim (Bool-cases (starts_word l && c == b':')) [
  | inl e ↦
      let q : (l, drop_while is_blank s) ≡ m = some-injective _ _ (matched e) in
      omega (arith, ap (λ (z : Name × Name). length z.1) q, drop_while-le is_blank s)
  | inr e ↦ absurd (unmatched e)
]
  where
    matched : (starts_word l && c == b':') ≡ true → some (l, drop_while is_blank s) ≡ some m
    matched e = rw e at h

    unmatched : (starts_word l && c == b':') ≡ false → ⊥
    unmatched e = let q : ◌≡◌ {A = Option (Name × Name)} none (some m) = rw e at h in cc

match_label-lt : (s : Name) (m : Name × Name) → match_label s ≡ some m → length m.1 < length s
unfolding match_label
match_label-lt s m h = omega (
  arith,
  behind_label-lt (take_while is_word s) (drop_while is_word s) m h,
  drop_while-le is_word s,
)

-- Two ways to go on that agree on shorter lines.
dispatch-eq :
    (a b : Name → List Item → Outcome (List Item)) (t : Name) (items : List Item)
    → ((s : Name) (xs : List Item) → length s < length t → a s xs ≡ b s xs)
    → dispatch a t items ≡ dispatch b t items
unfolding dispatch
dispatch-eq a b t items h = elim (Option-cases (match_label t)) [
  | inl e ↦ rw e refl
  | inr (m, e) ↦ rw e (
      ap (λ z. if null t then ok items else if null m.1 then ok (emit_label m.0 items) else z)
        (h m.1 (emit_label m.0 items) (match_label-lt t m e)))
]

parse_line_fuel-eq :
    (f g : ℕ) (line : Name) (items : List Item)
    → length line < f
    → length line < g
    → parse_line_fuel f line items ≡ parse_line_fuel g line items
unfolding parse_line_fuel
parse_line_fuel-eq zero g line items h k = elim h [ ]
parse_line_fuel-eq (suc f) zero line items h k = elim k [ ]
parse_line_fuel-eq (suc f) (suc g) line items h k =
    dispatch-eq (parse_line_fuel f) (parse_line_fuel g) (trim (strip_comment false line)) items
      (λ s xs l.
        let shorter = trim-le (strip_comment false line) in
        let stripped = strip_comment-le false line in
        parse_line_fuel-eq f g s xs (omega arith) (omega arith))

-- Every fuel above the length of the line gives what `parse_line` gives: the lines behind labels that
-- Txt_x86_64_Att_ParseLine calls itself for become shorter, and its recursion ends before the model's fuel does.
pub parse_line-ends :
    (f : ℕ) (line : Name) (items : List Item)
    → length line < f
    → parse_line_fuel f line items ≡ parse_line line items
unfolding parse_line
parse_line-ends f line items h = parse_line_fuel-eq f (suc (length line)) line items h (omega arith)
