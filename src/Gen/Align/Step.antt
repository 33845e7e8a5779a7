-- ===== src/Gen/Align/Step.antt =====
-- How the state's `depth` follows the height of the stack, for each kind of step.
use mathlib.Core.Path.{subst}
use ivan_cc.Prelude.{
  ℕ, zero, suc, ◌+◌, ◌*◌, ◌%◌, ◌<◌, some, List, [], ◌∷◌, ◌≡◌, ◌∙◌, ap, sym, ℤ, pos, pos_part, ltb,
  lt→ltb, if◌then◌else◌, ◌+ℤ◌, ◌-ℤ◌, ◌*ℤ◌, ◌%ℤ◌, arith, length,
}
use ivan_cc.Asm.Types.{Reg, Op, Item, instr, no_operand}
use ivan_cc.Asm.Emit
use ivan_cc.Asm.Emit.{new}
use ivan_cc.Gen.State.{Gen, asm, emit_push, emit_pop}
use ivan_cc.Gen.Expr.{call_pop_args, align_pad, open_pad, close_call}
use ivan_cc.Gen.Align.Labels.{Agrees}
use ivan_cc.X86.Stack.{Height, Labels, track, track_item, track-new}

-- From height `start` the list reaches `base` words and those that the generator has pushed.
pub record Tracks (at : Labels) (c : ℕ) (start : Height) (base frame d : ℕ) (s : Gen) : Type 0 where
  pub counted : s.depth ≡ pos d
  pub numbered : s.label_id ≡ c
  pub tracked :
      (at' : Labels)
      → Agrees at at' c
      → track at' s.items start ≡ some (record { words = base + d; frame = frame })

pub pos-+ : (a b : ℕ) → pos a +ℤ pos b ≡ pos (a + b)
unfolding ◌+ℤ◌
pos-+ a b = ground arith

pub pos-- : (a b : ℕ) → pos (a + b) -ℤ pos b ≡ pos a
unfolding ◌-ℤ◌
pos-- a b = ground arith

add_assoc_eq : (a b c : ℕ) → a + (b + c) ≡ a + b + c
add_assoc_eq a b c = omega arith

raised : (a b : ℕ) → a + (b + 1) ≡ suc (a + b)
raised a b = omega arith

module _ (at : Labels) (c : ℕ) (start : Height) (base frame d : ℕ) (s : Gen) where
  -- An item that leaves %rsp and %rbp alone.
  pub neutral :
      (item : Item)
      → ((at' : Labels)
          → Agrees at at' c
          → track_item at' item (record { words = base + d; frame = frame })
            ≡ some (record { words = base + d; frame = frame }))
      → Tracks at c start base frame d s
      → Tracks at c start base frame d (asm (new item) s)
  neutral item n t = record {
    counted = t.counted;
    numbered = t.numbered;
    tracked = λ at' a. track-new at' item s.items start _ (t.tracked at' a) ∙ n at' a;
  }

  pub push-Tracks :
      Tracks at c start base frame d s → Tracks at c start base frame (d + 1) (emit_push s)
  unfolding track_item
  push-Tracks t = record {
    counted = ap (λ z. z +ℤ pos 1) t.counted ∙ pos-+ d 1;
    numbered = t.numbered;
    tracked = λ at' a.
        track-new at' _ s.items start _ (t.tracked at' a)
        ∙ ap (λ n. some (record { words = n; frame = frame })) (omega arith);
  }

  pub pop-Tracks :
      (r : Reg)
      → Tracks at c start base frame (d + 1) s
      → Tracks at c start base frame d (emit_pop r s)
  unfolding track_item
  pop-Tracks r t = record {
    counted = ap (λ z. z -ℤ pos 1) t.counted ∙ pos-- d 1;
    numbered = t.numbered;
    tracked = λ at' a.
        track-new at' _ s.items start _ (t.tracked at' a)
        ∙ ap
            (λ (w : ℕ).
              track_item at' (instr Op.pop (Emit.reg64 r) no_operand)
                (record { words = w; frame = frame }))
            (raised base d);
  }

-- Popping the argument registers.
pub call_pop_args-Tracks :
    (at : Labels) (c : ℕ) (start : Height) (base frame d : ℕ) (regs : List Reg) (s : Gen)
    → Tracks at c start base frame (d + length regs) s
    → Tracks at c start base frame d (call_pop_args regs s)
unfolding call_pop_args
call_pop_args-Tracks at c start base frame d [] s t =
    subst (λ n. Tracks at c start base frame n s) (omega arith) t
call_pop_args-Tracks at c start base frame d (r ∷ regs) s t =
    call_pop_args-Tracks at c start base frame d regs (emit_pop r s) (
      pop-Tracks at c start base frame (d + length regs) s r
        (subst (λ n. Tracks at c start base frame n s) (omega arith) t))

pub align_pad-pos : (d n : ℕ) → align_pad (pos d) n ≡ pos ((d + n) % 2)
unfolding align_pad ◌+ℤ◌ ◌%ℤ◌
align_pad-pos d n = ground arith

-- The padding word.
pub open_pad-Tracks :
    (at : Labels) (c : ℕ) (start : Height) (base frame d p : ℕ) (s : Gen)
    → p < 2
    → Tracks at c start base frame d s
    → Tracks at c start base frame (d + p) (open_pad (pos p) s)
unfolding open_pad track_item
open_pad-Tracks at c start base frame d zero s h t =
    subst (λ n. Tracks at c start base frame n s) (omega arith) t
open_pad-Tracks at c start base frame d (suc zero) s h t = record {
  counted = ap (λ z. z +ℤ pos 1) t.counted ∙ pos-+ d 1;
  numbered = t.numbered;
  tracked = λ at' a.
      track-new at' _ s.items start _ (t.tracked at' a)
      ∙ ap (λ (n : ℕ). some (record { words = n; frame = frame })) (omega arith);
}
open_pad-Tracks at c start base frame d (suc (suc p)) s h t = absurd (omega arith)

-- %rsp moves up over `k` words.
release_item :
    (at' : Labels) (w frame k : ℕ)
    → track_item at'
        (instr Op.add (Emit.reg64 Reg.rsp) (Emit.imm (pos (8 * k))))
        (record { words = w + k; frame = frame })
      ≡ some (record { words = w; frame = frame })
unfolding track_item
release_item at' w frame k = ground arith

abbrev released : ℤ → Gen → Gen
released n s = record s {
  items = Emit.emit_add_imm (pos 8 *ℤ n) Reg.rsp s.items;
  depth = s.depth -ℤ n;
}

abbrev release : ℤ → Gen → Gen
release n s = if ltb 0 (pos_part n) then released n s else s

released-Tracks :
    (at : Labels) (c : ℕ) (start : Height) (base frame d k : ℕ) (s : Gen)
    → Tracks at c start base frame (d + k) s
    → Tracks at c start base frame d (released (pos k) s)
unfolding ◌*ℤ◌
released-Tracks at c start base frame d k s t = record {
  counted = ap (λ z. z -ℤ pos k) t.counted ∙ pos-- d k;
  numbered = t.numbered;
  tracked = λ at' a.
      track-new at' _ s.items start _ (t.tracked at' a)
      ∙ (ap
            (λ (w : ℕ).
              track_item at' (instr Op.add (Emit.reg64 Reg.rsp) (Emit.imm (pos (8 * k))))
                (record { words = w; frame = frame }))
            (add_assoc_eq base d k)
          ∙ release_item at' (base + d) frame k);
}

release-Tracks :
    (at : Labels) (c : ℕ) (start : Height) (base frame d k : ℕ) (s : Gen)
    → Tracks at c start base frame (d + k) s
    → Tracks at c start base frame d (release (pos k) s)
release-Tracks at c start base frame d zero s t =
    subst (λ n. Tracks at c start base frame n s) (omega arith) t
release-Tracks at c start base frame d (suc k) s t =
    rw (lt→ltb 0 (suc k) (omega arith)) (released-Tracks at c start base frame d (suc k) s t)

-- The release of the stack arguments and the padding.
pub close_call-Tracks :
    (at : Labels) (c : ℕ) (start : Height) (base frame d n p : ℕ) (s : Gen)
    → Tracks at c start base frame (d + p + n) s
    → Tracks at c start base frame d (close_call n (pos p) s)
unfolding close_call
close_call-Tracks at c start base frame d n p s t =
    subst (λ z. Tracks at c start base frame d (release z s)) (sym (pos-+ n p))
      (release-Tracks at c start base frame d (n + p) s
        (subst (λ w. Tracks at c start base frame w s) (omega arith) t))
