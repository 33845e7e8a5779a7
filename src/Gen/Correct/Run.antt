-- ===== src/Gen/Correct/Run.antt =====
-- Running the code that one more item makes, with no jump pending and with one.
use ivan_cc.Prelude.{false, ℕ, none, some, List, ◌≡◌, ◌∙◌, ap, ℤ, to_word}
use ivan_cc.Prelude.Name.{Name, name_eq, name_eq_refl}
use ivan_cc.Asm.Types.{Reg, Item}
use ivan_cc.Asm.Emit.{new}
use ivan_cc.X86.Machine.{Machine, run_item, skip_item, step, exec, exec-new}

-- The list takes `m₀` to `m`.
pub record Reaches (items : List Item) (m₀ m : Machine) : Type 0 where
  pub runs : exec items m₀ ≡ some m

run_step : (item : Item) (m : Machine) → m.seek ≡ none → step item m ≡ run_item item m
unfolding step
run_step item m n =
    ap (λ o. elim o [ none ↦ run_item item m | some t ↦ some (skip_item t item m) ]) n

skip_step :
    (item : Item) (m : Machine) (target : Name)
    → m.seek ≡ some target
    → step item m ≡ some (skip_item target item m)
unfolding step
skip_step item m target n =
    ap (λ o. elim o [ none ↦ run_item item m | some t ↦ some (skip_item t item m) ]) n

-- With no jump pending the item runs.
pub exec-run :
    (item : Item) {items : List Item} {m₀ m m' : Machine}
    → Reaches items m₀ m
    → m.seek ≡ none
    → run_item item m ≡ some m'
    → Reaches (new item items) m₀ m'
exec-run item {items} {m₀} {m} e n r = record {
  runs = exec-new item items m₀ m e.runs ∙ (run_step item m n ∙ r);
}

-- A pending jump skips it.
pub exec-skip :
    (item : Item) {items : List Item} {m₀ m : Machine} (target : Name)
    → Reaches items m₀ m
    → m.seek ≡ some target
    → Reaches (new item items) m₀ (skip_item target item m)
exec-skip item {items} {m₀} {m} target e n = record {
  runs = exec-new item items m₀ m e.runs ∙ skip_step item m target n;
}

-- The label that is sought ends the jump, and another does not.
pub exec-found :
    {items : List Item} {m₀ m : Machine} (target : Name)
    → Reaches items m₀ m
    → m.seek ≡ some target
    → Reaches (new (Item.label target) items) m₀ (record m { seek = none })
unfolding skip_item
exec-found {m} target e n = rw (name_eq_refl target) at (exec-skip (Item.label target) target e n)

pub exec-passed :
    {items : List Item} {m₀ m : Machine} (target other : Name)
    → Reaches items m₀ m
    → m.seek ≡ some target
    → name_eq other target ≡ false
    → Reaches (new (Item.label other) items) m₀ m
unfolding skip_item
exec-passed {m} target other e n ne = rw ne at (exec-skip (Item.label other) target e n)

-- The list runs from `m₀` to a machine with the value in %rax, the stack `stack`, and no jump pending.
pub record Lands (items : List Item) (m₀ : Machine) (stack : List ℕ) (v : ℤ) : Type 0 where
  pub last : Machine
  pub reached : Reaches items m₀ last
  pub value : last.regs Reg.rax ≡ to_word 64 v
  pub balanced : last.stack ≡ stack
  pub settled : last.seek ≡ none

pub lands :
    {items : List Item} {m₀ last : Machine} {stack : List ℕ} {v : ℤ}
    → Reaches items m₀ last
    → last.regs Reg.rax ≡ to_word 64 v
    → last.stack ≡ stack
    → last.seek ≡ none
    → Lands items m₀ stack v
lands {last} r e b n = record { last = last; reached = r; value = e; balanced = b; settled = n }

-- The same landing, said of an equal stack and value.
pub relands :
    {items : List Item} {m₀ : Machine} {st st' : List ℕ} {v v' : ℤ}
    → st ≡ st'
    → v ≡ v'
    → Lands items m₀ st v
    → Lands items m₀ st' v'
relands e f l = lands l.reached (l.value ∙ ap (to_word 64) f) (l.balanced ∙ e) l.settled
