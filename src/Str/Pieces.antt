-- ===== src/Str/Pieces.antt =====
-- What Str_Split and Str_Trim make of texts.
use ivan_cc.Prelude.{
  Bool, ℕ, zero, suc, ◌-◌, ◌&&◌, true, false, ◌==◌, if◌then◌else◌, List, [], ◌∷◌, ◌++◌, ◌≡◌, refl,
  ap, sym, ◌∙◌, length, drop, Bool-cases, inl, inr, ==_iff, arith, not, ◌≤◌,
}
use ivan_cc.Prelude.Name.{Name}
use ivan_cc.Str.Chars.{is_space, drop_while, null, all, all-tail, Stops}
use ivan_cc.Str.Split.{starts_with, split_from, split, into_first}
use ivan_cc.Str.Trim.{trim_end, trim}

-- Each piece behind the first, with the separator in front.
abbrev join_rest : Name → List Name → Name
join_rest sep [] = []
join_rest sep (piece ∷ pieces) = sep ++ (piece ++ join_rest sep pieces)

-- The pieces with the separator between them.
abbrev pub join : Name → List Name → Name
join sep [] = []
join sep (piece ∷ pieces) = piece ++ join_rest sep pieces

join-into_first :
    (sep : Name) (c : ℕ) (ps : List Name) → join sep (into_first c ps) ≡ c ∷ join sep ps
join-into_first sep c [] = refl
join-into_first sep c (p ∷ ps) = refl

-- There is always a first piece.
split_from-cons :
    (sep : Name) (k : ℕ) (s : Name) → (p : Name) × (ps : List Name) × (split_from sep k s ≡ p ∷ ps)
unfolding split_from
split_from-cons sep k [] = ([], [], refl)
split_from-cons sep (suc k) (c ∷ s) = split_from-cons sep k s
split_from-cons sep zero (c ∷ s) = elim (Bool-cases (starts_with (c ∷ s) sep)) [
  | inl h ↦ rw h ([], split_from sep (length sep - 1) s, refl)
  | inr h ↦ rw h (first (split_from sep 0 s))
]
  where
    first : (ps : List Name) → (q : Name) × (qs : List Name) × (into_first c ps ≡ q ∷ qs)
    first [] = (c ∷ [], [], refl)
    first (p ∷ ps) = (c ∷ p, ps, refl)

join-nil_cons :
    (sep : Name) (ps : List Name)
    → (p : Name) × (qs : List Name) × (ps ≡ p ∷ qs)
    → join sep ([] ∷ ps) ≡ sep ++ join sep ps
join-nil_cons sep [] h = let (p, qs, e) = h in cc
join-nil_cons sep (p ∷ ps) h = refl

starts_with-append : (sep s : Name) → starts_with s sep ≡ true → s ≡ sep ++ drop (length sep) s
unfolding starts_with
starts_with-append [] s h = refl
starts_with-append (p ∷ sep) [] h = cc
starts_with-append (p ∷ sep) (c ∷ s) h =
    let ih = starts_with-append sep s (ground arith) in
    let same : c ≡ p = ground arith in rw same (ap (λ z. p ∷ z) ih)

starts_with-le : (sep s : Name) → starts_with s sep ≡ true → length sep ≤ length s
unfolding starts_with
starts_with-le [] s h = omega arith
starts_with-le (p ∷ sep) [] h = cc
starts_with-le (p ∷ sep) (c ∷ s) h = let ih = starts_with-le sep s (ground arith) in omega arith

join-split_from :
    (p : ℕ) (sep : Name) (k : ℕ) (s : Name)
    → k ≤ length s
    → join (p ∷ sep) (split_from (p ∷ sep) k s) ≡ drop k s
unfolding split_from
join-split_from p sep zero [] l = refl
join-split_from p sep (suc k) [] l = absurd (omega arith)
join-split_from p sep (suc k) (c ∷ s) l = join-split_from p sep k s (omega arith)
join-split_from p sep zero (c ∷ s) l = elim (Bool-cases (starts_with (c ∷ s) (p ∷ sep))) [
  | inl h ↦ rw h (
      hit h
        (join-split_from p sep (length sep) s (omega (arith, starts_with-le (p ∷ sep) (c ∷ s) h))))
  | inr h ↦ rw h (
      join-into_first (p ∷ sep) c (split_from (p ∷ sep) 0 s)
      ∙ ap (λ z. c ∷ z) (join-split_from p sep zero s (omega arith)))
]
  where
    hit :
        starts_with (c ∷ s) (p ∷ sep) ≡ true
        → join (p ∷ sep) (split_from (p ∷ sep) (length sep) s) ≡ drop (length sep) s
        → join (p ∷ sep) ([] ∷ split_from (p ∷ sep) (suc (length sep) - 1) s) ≡ c ∷ s
    hit h ih =
        let k : suc (length sep) - 1 ≡ length sep = omega arith in
        rw k (
          join-nil_cons (p ∷ sep) _ (split_from-cons (p ∷ sep) (length sep) s)
          ∙ (ap (λ z. (p ∷ sep) ++ z) ih ∙ sym (starts_with-append (p ∷ sep) (c ∷ s) h)))

-- The pieces that Str_Split makes, with the separator between them, are the text, for every separator that is not
-- empty.
pub join-split : (p : ℕ) (sep str : Name) → join (p ∷ sep) (split str (p ∷ sep)) ≡ str
unfolding split
join-split p sep str = join-split_from p sep 0 str (omega arith)

-- At a separator of one character.
pub split-line :
    (sep : ℕ) (a rest : Name)
    → all (λ c. not (c == sep)) a ≡ true
    → split (a ++ sep ∷ rest) (sep ∷ []) ≡ a ∷ split rest (sep ∷ [])
unfolding split split_from starts_with
split-line sep [] rest h = let same : (sep == sep) ≡ true = (==_iff sep sep).1 refl in rw same refl
split-line sep (c ∷ a) rest h =
    let other : (c == sep) ≡ false = ground arith in
    rw other (ap (into_first c) (split-line sep a rest (all-tail _ c a h)))

pub split-last :
    (sep : ℕ) (a : Name) → all (λ c. not (c == sep)) a ≡ true → split a (sep ∷ []) ≡ a ∷ []
unfolding split split_from starts_with
split-last sep [] h = refl
split-last sep (c ∷ a) h =
    let other : (c == sep) ≡ false = ground arith in
    rw other (ap (into_first c) (split-last sep a (all-tail _ c a h)))

trim_end-bare : (b : Name) → all (λ c. not (is_space c)) b ≡ true → trim_end b ≡ b
unfolding trim_end
trim_end-bare [] h = refl
trim_end-bare (c ∷ b) h =
    let ink : is_space c ≡ false = ground arith in rw (trim_end-bare b (all-tail _ c b h), ink) refl

pub trim_end-append :
    (a b : Name)
    → null b ≡ false
    → all (λ c. not (is_space c)) b ≡ true
    → trim_end (a ++ b) ≡ a ++ b
unfolding trim_end
trim_end-append [] b n h = trim_end-bare b h
trim_end-append (c ∷ a) b n h = rw (trim_end-append a b n h) (keep (is_space c) (a ++ b) (more a))
  where
    more : (a : Name) → null (a ++ b) ≡ false
    more [] = n
    more (d ∷ a) = refl

    keep : (t : Bool) (s : Name) → null s ≡ false → (if t && null s then [] else c ∷ s) ≡ c ∷ s
    keep true s e = rw e refl
    keep false s e = refl

-- A text without spaces is not trimmed, and a space in front goes.
pub trim-bare : (b : Name) → all (λ c. not (is_space c)) b ≡ true → trim b ≡ b
unfolding trim
trim-bare [] h = refl
trim-bare (c ∷ b) h =
    let ink : is_space c ≡ false = ground arith in rw ink (trim_end-bare (c ∷ b) h)

pub trim-space : (c : ℕ) (b : Name) → is_space c ≡ true → trim (c ∷ b) ≡ trim b
unfolding trim
trim-space c b h = rw h refl

drop_while-Stops : (p : ℕ → Bool) (s : Name) → Stops p s → drop_while p s ≡ s
unfolding drop_while
drop_while-Stops p [] h = refl
drop_while-Stops p (c ∷ s) h = rw h refl

-- A text that begins with no space and ends in a word.
pub trim-append :
    (a b : Name)
    → Stops is_space (a ++ b)
    → null b ≡ false
    → all (λ d. not (is_space d)) b ≡ true
    → trim (a ++ b) ≡ a ++ b
unfolding trim
trim-append a b h n w = ap trim_end (drop_while-Stops is_space (a ++ b) h) ∙ trim_end-append a b n w
