-- ===== src/Gen/Align/Goes.antt =====
-- Code behind code, where each makes labels of its own.
use mathlib.Core.Path.{subst}
use ivan_cc.Prelude.{ℕ, ◌+◌, ◌%◌, ◌≤◌, refl, ◌∙◌, ap, sym, arith}
use ivan_cc.Gen.State.{Gen, count}
use ivan_cc.Gen.Expr.{align_pad, open_pad, and_tail, or_tail, test_je, test_jne}
use ivan_cc.Gen.Align.Step.{Tracks, align_pad-pos, open_pad-Tracks}
use ivan_cc.Gen.Align.Labels.{
  Agrees, Agrees-trans, mark, mark-Agrees, Marked-Agrees, false-Marked, true-Marked, end-Marked,
}
use ivan_cc.X86.Stack.{Height, Labels}
use ivan_cc.Gen.Align.Pieces.{and_tail-Level, or_tail-Level, test_je-Level, test_jne-Level}

module _ (start : Height) (base frame : ℕ) where
  abbrev At : Labels → ℕ → ℕ → Gen → Type 0
  At at c d s = Tracks at c start base frame d s

  -- Code that goes on from the labels below `c` reaches `d` pushed words with more labels.
  pub record Goes (at : Labels) (c d : ℕ) (s : Gen) : Type 0 where
    pub heights : Labels
    pub number : ℕ
    pub later : c ≤ number
    pub agrees : Agrees at heights c
    pub reached : At heights number d s

  pub stay : (at : Labels) (c d : ℕ) (s : Gen) → At at c d s → Goes at c d s
  stay at c d s t = record {
    heights = at;
    number = c;
    later = omega arith;
    agrees = λ l o. refl;
    reached = t;
  }

  -- One piece of code behind another.
  pub through :
      (at : Labels) (c d d' : ℕ) (s s' : Gen)
      → Goes at c d s
      → ((at' : Labels) (c' : ℕ) → c ≤ c' → Agrees at at' c → At at' c' d s → Goes at' c' d' s')
      → Goes at c d' s'
  through at c d d' s s' g f =
      let r = f g.heights g.number g.later g.agrees g.reached in
      record {
        heights = r.heights;
        number = r.number;
        later = omega (arith, g.later, r.later);
        agrees = Agrees-trans at g.heights r.heights c g.number g.later g.agrees r.agrees;
        reached = r.reached;
      }

  -- Code that makes no label.
  pub behind :
      (at : Labels) (c d d' : ℕ) (s s' : Gen)
      → ((at' : Labels) (c' : ℕ) → At at' c' d s → At at' c' d' s')
      → Goes at c d s
      → Goes at c d' s'
  behind at c d d' s s' f g =
      through at c d d' s s' g (λ at' c' le a t. stay at' c' d' s' (f at' c' t))

  abbrev height : ℕ → Height
  height d = record { words = base + d; frame = frame }

  -- The labels that `count` hands out stand at the height of now.
  pub counted-At :
      (at : Labels) (c d d' : ℕ) (s s' : Gen)
      → At at c d s
      → (At (mark s.label_id (height d) at) (s.label_id + 1) d (count s)
          → Goes (mark s.label_id (height d) at) (s.label_id + 1) d' s')
      → Goes at c d' s'
  counted-At at c d d' s s' t f =
      let k = s.label_id in
      let le : c ≤ k = omega (arith, t.numbered) in
      let le' : c ≤ k + 1 = omega (arith, t.numbered) in
      let m = mark-Agrees k c (height d) at le in
      let r = f (record {
        counted = t.counted;
        numbered = refl;
        tracked =
            λ at' a. t.tracked at' (Agrees-trans at (mark k (height d) at) at' c (k + 1) le' m a);
      }) in
      record {
        heights = r.heights;
        number = r.number;
        later = omega (arith, r.later, t.numbered);
        agrees = Agrees-trans at (mark k (height d) at) r.heights c (k + 1) le' m r.agrees;
        reached = r.reached;
      }

  -- The height after the padding that a call opens with.
  pub padded-At :
      (at : Labels) (c d k : ℕ) (s : Gen)
      → At at c d s
      → At at c (d + (d + k) % 2) (open_pad (align_pad s.depth k) s)
  padded-At at c d k s t =
      subst (λ z. At at c (d + (d + k) % 2) (open_pad z s))
        (sym (ap (λ z. align_pad z k) t.counted ∙ align_pad-pos d k))
        (open_pad-Tracks at c start base frame d ((d + k) % 2) s (omega arith) t)

  -- Both tails of `&&` and `||`, behind code that has made more labels.
  pub and-At :
      (k : ℕ) (at at₂ : Labels) (c₂ d : ℕ) (s : Gen)
      → k + 1 ≤ c₂
      → Agrees (mark k (height d) at) at₂ (k + 1)
      → At at₂ c₂ d s
      → At at₂ c₂ d (and_tail k (test_je k s))
  and-At k at at₂ c₂ d s le a t =
      let f = Marked-Agrees _ at₂ (k + 1) c₂ _ _ le a (false-Marked k (height d) at) in
      let e = Marked-Agrees _ at₂ (k + 1) c₂ _ _ le a (end-Marked k (height d) at) in
      and_tail-Level at₂ c₂ start base frame d k _ f e
        (test_je-Level at₂ c₂ start base frame d k s f t)

  pub or-At :
      (k : ℕ) (at at₂ : Labels) (c₂ d : ℕ) (s : Gen)
      → k + 1 ≤ c₂
      → Agrees (mark k (height d) at) at₂ (k + 1)
      → At at₂ c₂ d s
      → At at₂ c₂ d (or_tail k (test_jne k s))
  or-At k at at₂ c₂ d s le a t =
      let f = Marked-Agrees _ at₂ (k + 1) c₂ _ _ le a (true-Marked k (height d) at) in
      let e = Marked-Agrees _ at₂ (k + 1) c₂ _ _ le a (end-Marked k (height d) at) in
      or_tail-Level at₂ c₂ start base frame d k _ f e
        (test_jne-Level at₂ c₂ start base frame d k s f t)
