-- ===== src/Gen/Correct/Jumps.antt =====
-- The tests and tails of `&&` and `||`: where the jumps land.
use ivan_cc.Prelude.{
  ℕ, ◌+◌, ◌≤◌, Bool, true, false, not, none, some, List, ◌≡◌, refl, ℤ, pos, to_word, Fits, arith,
  if◌then◌else◌,
}
use ivan_cc.Prelude.Name.{Name, name_eq, name_eq-numbered}
use ivan_cc.Asm.Types.{Reg, Item}
use ivan_cc.Gen.State.{Gen, false_label, true_label, end_label}
use ivan_cc.Gen.Expr.{and_tail, or_tail, test_je, test_jne}
use ivan_cc.Gen.Correct.Run.{exec-run, exec-skip, exec-found, exec-passed, Reaches, Lands, lands}
use ivan_cc.Gen.Correct.Unary.{zero_flag}
use ivan_cc.X86.Machine.{Machine, run_item, skip_item, write, is_zero, jump_if}

-- A label that code generated from number `id` on does not define.
pub record Older (target : Name) (id : ℕ) : Type 0 where
  pub not_false : (j : ℕ) → id ≤ j → name_eq (false_label j) target ≡ false
  pub not_true : (j : ℕ) → id ≤ j → name_eq (true_label j) target ≡ false
  pub not_end : (j : ℕ) → id ≤ j → name_eq (end_label j) target ≡ false

pub Older-le : {target : Name} {i j : ℕ} → i ≤ j → Older target i → Older target j
Older-le le o = record {
  not_false = λ k h. o.not_false k (omega arith);
  not_true = λ k h. o.not_true k (omega arith);
  not_end = λ k h. o.not_end k (omega arith);
}

pub Older-false_label : (k : ℕ) → Older (false_label k) (k + 1)
Older-false_label k = record {
  not_false = λ j h. name_eq-numbered ".L.false." j k (omega arith);
  not_true = λ j h. refl;
  not_end = λ j h. refl;
}

pub Older-true_label : (k : ℕ) → Older (true_label k) (k + 1)
Older-true_label k = record {
  not_false = λ j h. refl;
  not_true = λ j h. name_eq-numbered ".L.true." j k (omega arith);
  not_end = λ j h. refl;
}

jump_if-stack : (b : Bool) (l : Name) (m : Machine) → (jump_if b l m).stack ≡ m.stack
jump_if-stack true l m = refl
jump_if-stack false l m = refl

jump_if-seek :
    (b : Bool) (l : Name) (m : Machine)
    → m.seek ≡ none
    → (jump_if b l m).seek ≡ (if b then some l else none)
jump_if-seek true l m n = refl
jump_if-seek false l m n = n

-- The machine after a test: the stack is as before, and a jump to `target` is pending if `taken`.
pub record Tests (items : List Item) (m₀ : Machine) (stack : List ℕ) (target : Name) (taken : Bool)
    : Type 0 where
  pub last : Machine
  pub reached : Reaches items m₀ last
  pub balanced : last.stack ≡ stack
  pub pending : last.seek ≡ (if taken then some target else none)

pub test_je-label_id : (k : ℕ) (s : Gen) → (test_je k s).label_id ≡ s.label_id
unfolding test_je
test_je-label_id k s = refl

pub test_jne-label_id : (k : ℕ) (s : Gen) → (test_jne k s).label_id ≡ s.label_id
unfolding test_jne
test_jne-label_id k s = refl

pub and_tail-label_id : (k : ℕ) (s : Gen) → (and_tail k s).label_id ≡ s.label_id
unfolding and_tail
and_tail-label_id k s = refl

pub or_tail-label_id : (k : ℕ) (s : Gen) → (or_tail k s).label_id ≡ s.label_id
unfolding or_tail
or_tail-label_id k s = refl

tests :
    {items : List Item} {m₀ last : Machine} {stack : List ℕ} {target : Name} {taken : Bool}
    → Reaches items m₀ last
    → last.stack ≡ stack
    → last.seek ≡ (if taken then some target else none)
    → Tests items m₀ stack target taken
tests {last} r b p = record { last = last; reached = r; balanced = b; pending = p }

module _ (k : ℕ) (s : Gen) (m₀ m : Machine) (reached : Reaches s.items m₀ m) where
  module _ (running : m.seek ≡ none) (a : ℤ) (fa : Fits 64 a)
      (value : m.regs Reg.rax ≡ to_word 64 a) where
    pub test_je-Tests : Tests (test_je k s).items m₀ m.stack (false_label k) (is_zero a)
    unfolding test_je run_item
    test_je-Tests = rw (← zero_flag s m₀ m reached running a fa value) (
        tests (exec-run _ (exec-run _ reached running refl) running refl) (jump_if-stack _ _ _)
          (jump_if-seek _ _ _ running))

    pub test_jne-Tests : Tests (test_jne k s).items m₀ m.stack (true_label k) (not (is_zero a))
    unfolding test_jne run_item
    test_jne-Tests = rw (← zero_flag s m₀ m reached running a fa value) (
        tests (exec-run _ (exec-run _ reached running refl) running refl) (jump_if-stack _ _ _)
          (jump_if-seek _ _ _ running))

  -- With another jump pending the tests are skipped.
  module _ (target : Name) (pending : m.seek ≡ some target) where
    pub test_je-skips : Reaches (test_je k s).items m₀ m
    unfolding test_je skip_item
    test_je-skips = exec-skip _ target (exec-skip _ target reached pending) pending

    pub test_jne-skips : Reaches (test_jne k s).items m₀ m
    unfolding test_jne skip_item
    test_jne-skips = exec-skip _ target (exec-skip _ target reached pending) pending

  -- The tail of `&&` gives 1 where no jump is pending, and 0 by the jump to its label.
  pub and_tail-falls : m.seek ≡ none → Lands (and_tail k s).items m₀ m.stack (pos 1)
  unfolding and_tail run_item skip_item write
  and_tail-falls running =
      lands
        (exec-found (end_label k)
          (exec-skip _ (end_label k)
            (exec-passed (end_label k) (false_label k)
              (exec-run _ (exec-run _ reached running refl) running refl) refl refl)
            refl)
          refl)
        refl refl refl

  pub and_tail-jumps : m.seek ≡ some (false_label k) → Lands (and_tail k s).items m₀ m.stack (pos 0)
  unfolding and_tail run_item skip_item write
  and_tail-jumps pending =
      lands
        (exec-run _
          (exec-run _
            (exec-found (false_label k)
              (exec-skip _ (false_label k) (exec-skip _ (false_label k) reached pending) pending)
              pending)
            refl refl)
          refl refl)
        refl refl refl

  pub and_tail-skips :
      (target : Name) → Older target k → m.seek ≡ some target → Reaches (and_tail k s).items m₀ m
  unfolding and_tail skip_item
  and_tail-skips target older pending =
      exec-passed target (end_label k)
        (exec-skip _ target
          (exec-passed target (false_label k)
            (exec-skip _ target (exec-skip _ target reached pending) pending) pending
            (older.not_false k (omega arith)))
          pending)
        pending (older.not_end k (omega arith))

  -- The tail of `||` gives 0 where no jump is pending, and 1 by the jump to its label.
  pub or_tail-falls : m.seek ≡ none → Lands (or_tail k s).items m₀ m.stack (pos 0)
  unfolding or_tail run_item skip_item write
  or_tail-falls running =
      lands
        (exec-found (end_label k)
          (exec-skip _ (end_label k)
            (exec-passed (end_label k) (true_label k)
              (exec-run _ (exec-run _ reached running refl) running refl) refl refl)
            refl)
          refl)
        refl refl refl

  pub or_tail-jumps : m.seek ≡ some (true_label k) → Lands (or_tail k s).items m₀ m.stack (pos 1)
  unfolding or_tail run_item skip_item write
  or_tail-jumps pending =
      lands
        (exec-run _
          (exec-run _
            (exec-found (true_label k)
              (exec-skip _ (true_label k) (exec-skip _ (true_label k) reached pending) pending)
              pending)
            refl refl)
          refl refl)
        refl refl refl

  pub or_tail-skips :
      (target : Name) → Older target k → m.seek ≡ some target → Reaches (or_tail k s).items m₀ m
  unfolding or_tail skip_item
  or_tail-skips target older pending =
      exec-passed target (end_label k)
        (exec-skip _ target
          (exec-passed target (true_label k)
            (exec-skip _ target (exec-skip _ target reached pending) pending) pending
            (older.not_true k (omega arith)))
          pending)
        pending (older.not_end k (omega arith))
