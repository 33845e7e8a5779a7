-- ===== src/Str/Chars.antt =====
-- Classes of characters, and runs of characters of a class. `take_while` and `drop_while` are what strspn, strcspn and
-- the loops `while (*p is in the class) p++` measure.
use ivan_cc.Prelude.{
  ℕ, Bool, true, false, not, ◌&&◌, ◌||◌, ◌==◌, leb, if◌then◌else◌, [], ◌∷◌, ◌++◌, ◌≡◌, refl, ap,
  arith, Bool-cases, inl, inr, ==_iff,
}
use ivan_cc.Prelude.Name.{Name}

abbrev pub within : ℕ → ℕ → ℕ → Bool
within lo hi c = leb lo c && leb c hi

-- " \t\r\n\f\v", the class of isspace.
unfoldable pub is_space : ℕ → Bool
is_space c = c == b' ' || c == b'\t' || c == b'\r' || c == b'\n' || c == 12 || c == 11

-- " \t".
unfoldable pub is_blank : ℕ → Bool
is_blank c = c == b' ' || c == b'\t'

-- [0-9], [A-Za-z], [A-Za-z0-9] and [0-9A-Fa-f].
unfoldable pub is_digit : ℕ → Bool
is_digit c = within b'0' b'9' c

unfoldable pub is_alpha : ℕ → Bool
is_alpha c = within b'A' b'Z' c || within b'a' b'z' c

unfoldable pub is_alnum : ℕ → Bool
unfolding is_alpha is_digit
is_alnum c = is_alpha c || is_digit c

unfoldable pub is_hex : ℕ → Bool
unfolding is_digit
is_hex c = is_digit c || within b'A' b'F' c || within b'a' b'f' c

abbrev pub all : (ℕ → Bool) → Name → Bool
all p [] = true
all p (c ∷ cs) = p c && all p cs

abbrev pub null : Name → Bool
null [] = true
null (c ∷ cs) = false

unfoldable pub take_while : (ℕ → Bool) → Name → Name
take_while p [] = []
take_while p (c ∷ cs) = let rest = take_while p cs in if p c then c ∷ rest else []

unfoldable pub drop_while : (ℕ → Bool) → Name → Name
drop_while p [] = []
drop_while p (c ∷ cs) = if p c then drop_while p cs else c ∷ cs

-- strchr: the text from the first `c` on.
abbrev pub strchr : ℕ → Name → Name
strchr c = drop_while (λ d. not (d == c))

-- A text in which a run of the class `p` ends at once.
abbrev pub Stops : (ℕ → Bool) → Name → Type 0
Stops p [] = Unit
Stops p (c ∷ cs) = p c ≡ false

pub all-head : (p : ℕ → Bool) (c : ℕ) (cs : Name) → all p (c ∷ cs) ≡ true → p c ≡ true
all-head p c cs h = ground arith

pub all-tail : (p : ℕ → Bool) (c : ℕ) (cs : Name) → all p (c ∷ cs) ≡ true → all p cs ≡ true
all-tail p c cs h = ground arith

pub all-cons :
    (p : ℕ → Bool) (c : ℕ) (cs : Name) → p c ≡ true → all p cs ≡ true → all p (c ∷ cs) ≡ true
all-cons p c cs h hs = rw (h, hs) refl

pub all-append :
    (p : ℕ → Bool) (a b : Name) → all p a ≡ true → all p b ≡ true → all p (a ++ b) ≡ true
all-append p [] b h hb = hb
all-append p (c ∷ a) b h hb =
    all-cons p c (a ++ b) (all-head p c a h) (all-append p a b (all-tail p c a h) hb)

pub all-weaken :
    (p q : ℕ → Bool) (s : Name)
    → ((c : ℕ) → p c ≡ true → q c ≡ true)
    → all p s ≡ true
    → all q s ≡ true
all-weaken p q [] f h = refl
all-weaken p q (c ∷ s) f h =
    all-cons q c s (f c (all-head p c s h)) (all-weaken p q s f (all-tail p c s h))

pub take_while-append :
    (p : ℕ → Bool) (a b : Name) → all p a ≡ true → Stops p b → take_while p (a ++ b) ≡ a
unfolding take_while
take_while-append p [] [] h s = refl
take_while-append p [] (c ∷ b) h s = rw s refl
take_while-append p (c ∷ a) b h s =
    rw (all-head p c a h) (ap (λ z. c ∷ z) (take_while-append p a b (all-tail p c a h) s))

pub drop_while-append :
    (p : ℕ → Bool) (a b : Name) → all p a ≡ true → Stops p b → drop_while p (a ++ b) ≡ b
unfolding drop_while
drop_while-append p [] [] h s = refl
drop_while-append p [] (c ∷ b) h s = rw s refl
drop_while-append p (c ∷ a) b h s =
    rw (all-head p c a h) (drop_while-append p a b (all-tail p c a h) s)

-- The two halves of a text.
pub take-drop_while : (p : ℕ → Bool) (s : Name) → take_while p s ++ drop_while p s ≡ s
unfolding take_while drop_while
take-drop_while p [] = refl
take-drop_while p (c ∷ s) = elim (Bool-cases (p c)) [
  | inl h ↦ rw h (ap (λ z. c ∷ z) (take-drop_while p s))
  | inr h ↦ rw h refl
]

-- A character of the class `p` is none outside the class.
pub ne_of_class : (p : ℕ → Bool) (c d : ℕ) → p c ≡ true → p d ≡ false → (c == d) ≡ false
ne_of_class p c d h k = elim (Bool-cases (c == d)) [
  | inl e ↦ let same : c ≡ d = (==_iff c d).0 e in cc (ap p same, h, k)
  | inr e ↦ e
]

-- A text that is one run.
pub take_while-all : (p : ℕ → Bool) (s : Name) → all p s ≡ true → take_while p s ≡ s
unfolding take_while
take_while-all p [] h = refl
take_while-all p (c ∷ s) h =
    rw (all-head p c s h) (ap (λ z. c ∷ z) (take_while-all p s (all-tail p c s h)))

pub drop_while-all : (p : ℕ → Bool) (s : Name) → all p s ≡ true → drop_while p s ≡ []
unfolding drop_while
drop_while-all p [] h = refl
drop_while-all p (c ∷ s) h = rw (all-head p c s h) (drop_while-all p s (all-tail p c s h))
