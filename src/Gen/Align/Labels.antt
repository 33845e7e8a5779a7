-- ===== src/Gen/Align/Labels.antt =====
-- The labels with a number, and the heights of those before a number.
use ivan_cc.Prelude.{ℕ, ◌+◌, ◌≤◌, Bool, false, ◌||◌, if◌then◌else◌, ◌≡◌, refl, ◌∙◌, arith}
use ivan_cc.Prelude.Name.{Name, name_eq, name_eq-numbered, name_eq_refl}
use ivan_cc.Gen.State.{false_label, true_label, end_label}
use ivan_cc.X86.Stack.{Height, Labels}

abbrev pub has_number : ℕ → Name → Bool
has_number k l = name_eq (false_label k) l || name_eq (true_label k) l || name_eq (end_label k) l

-- A label that none with a number from `c` on is.
abbrev pub Old : Name → ℕ → Type 0
Old l c = (j : ℕ) → c ≤ j → has_number j l ≡ false

pub Old-le : (l : Name) (c c' : ℕ) → c ≤ c' → Old l c → Old l c'
Old-le l c c' le o = λ j h. o j (omega arith)

-- Heights that are those of `at` for the old labels.
abbrev pub Agrees : Labels → Labels → ℕ → Type 0
Agrees at at' c = (l : Name) → Old l c → at' l ≡ at l

pub Agrees-trans :
    (a b d : Labels) (c c' : ℕ) → c ≤ c' → Agrees a b c → Agrees b d c' → Agrees a d c
Agrees-trans a b d c c' le f g = λ l o. g l (Old-le l c c' le o) ∙ f l o

-- The labels with the number `k` at the height `h`.
abbrev pub mark : ℕ → Height → Labels → Labels
mark k h at l = if has_number k l then h else at l

pub mark-Agrees : (k c : ℕ) (h : Height) (at : Labels) → c ≤ k → Agrees at (mark k h at) c
mark-Agrees k c h at le l o = rw (o k le) refl

-- An old label at a height.
pub record Marked (at : Labels) (c : ℕ) (l : Name) (h : Height) : Type 0 where
  pub old : Old l c
  pub stands : at l ≡ h

pub Marked-Agrees :
    (at at' : Labels) (c c' : ℕ) (l : Name) (h : Height)
    → c ≤ c'
    → Agrees at at' c
    → Marked at c l h
    → Marked at' c' l h
Marked-Agrees at at' c c' l h le a m = record {
  old = Old-le l c c' le m.old;
  stands = a l m.old ∙ m.stands;
}

module _ (k : ℕ) (h : Height) (at : Labels) where
  pub false-Marked : Marked (mark k h at) (k + 1) (false_label k) h
  false-Marked = record {
    old = λ j le. rw (name_eq-numbered ".L.false." j k (omega arith)) refl;
    stands = rw (name_eq_refl (false_label k)) refl;
  }

  pub true-Marked : Marked (mark k h at) (k + 1) (true_label k) h
  true-Marked = record {
    old = λ j le. rw (name_eq-numbered ".L.true." j k (omega arith)) refl;
    stands = rw (name_eq_refl (true_label k)) refl;
  }

  pub end-Marked : Marked (mark k h at) (k + 1) (end_label k) h
  end-Marked = record {
    old = λ j le. rw (name_eq-numbered ".L.end." j k (omega arith)) refl;
    stands = rw (name_eq_refl (end_label k)) refl;
  }
