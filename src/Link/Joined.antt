-- ===== src/Link/Joined.antt =====
-- What a merge keeps of both objects.
use mathlib.Core.Path.{subst}
use ivan_cc.Prelude.{ℕ, List, Ends, Ends->>=, Ends-both}
use ivan_cc.Elf.Object.{Elf, Sec, Sym}
use ivan_cc.Elf.Extends.{Extends, Extends-trans}
use ivan_cc.Link.Whole.{IsObject}
use ivan_cc.Link.Symbols.{IsMultiple}
use ivan_cc.Link.Merge.{merge}
use ivan_cc.Link.Merged.{merge-IsObject}
use ivan_cc.Link.Resolved.{Any, Holds-Extends, Stays, merge_sections-AllHold}
use ivan_cc.Link.Definitions.{AllStand, AllLanded, merge_symbols-AllLanded, merge_all_relas-Extends}

-- The sections of the output grow at their ends, its symbols keep their names and definitions, and each input symbol has
-- one of its name that, if the input defines it, is at the same bytes.
pub record Joined (out in_ out' : Elf) : Type 0 where
  pub extends : Extends out.secs out'.secs
  pub stays : Stays out.syms out'.syms
  pub stand : AllStand in_ out'.secs in_.syms out'.syms

AllStand-Extends :
    (in_ : Elf) (xs ys : List Sec) (syms outs : List Sym)
    → Extends xs ys
    → AllStand in_ xs syms outs
    → AllStand in_ ys syms outs
AllStand-Extends in_ xs ys syms outs ext h i symbol e =
    let (p, t, at, (named, goes)) = h i symbol e in
    (
      p,
      t,
      at,
      (
        named,
        λ j sec is_j at_j.
            let (b, holds, d, v) = goes j sec is_j at_j in
            (b, Holds-Extends xs ys b sec.bytes ext holds, d, v),
      ),
    )

merge_keeps : (out in_ : Elf) → Ends Any (Joined out in_) (merge out in_)
unfolding merge
merge_keeps out in_ =
    let (bases, out₁, e₁, filled, hold) = merge_sections-AllHold in_.secs out in
    rw (Ends, e₁)
      (Ends->>= Any (λ (r : List ℕ × Elf). AllLanded in_ out₁.secs in_.syms out₁ r.1)
        (Joined out in_) _ _ (merge_symbols-AllLanded in_ out₁.secs bases in_.syms out₁ hold)
        (λ r landed.
          Ends->>= Any (Extends r.1.secs) (Joined out in_) _ _
            (merge_all_relas-Extends in_ bases r.0 0 in_.secs r.1.secs)
            (λ secs ext.
              let grown : Extends out₁.secs secs =
                subst (λ xs. Extends xs secs) landed.same_secs ext in
              record {
                extends = Extends-trans out.secs out₁.secs secs filled.extends grown;
                stays = subst (λ xs. Stays xs r.1.syms) filled.same_syms landed.stays;
                stand = AllStand-Extends in_ out₁.secs secs in_.syms r.1.syms grown landed.there;
              })))

-- Link_Merge of an input into an output, both objects that can be linked, ends with such an object or reports a second
-- definition of a global. In the result the output's sections have only grown at their ends and its symbols keep their
-- names, and the section and value of those that are defined; every symbol of the input has a symbol of its name there,
-- and one that the input defines has a place from which the bytes of its input section lie as they lie there.
pub merge-Joined :
    (out in_ : Elf)
    → IsObject out
    → IsObject in_
    → Ends IsMultiple (λ out'. IsObject out' × Joined out in_ out') (merge out in_)
merge-Joined out in_ o i =
    Ends-both IsMultiple Any IsObject (Joined out in_) (merge out in_) (merge-IsObject out in_ o i)
      (merge_keeps out in_)
