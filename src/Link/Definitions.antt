-- ===== src/Link/Definitions.antt =====
-- What becomes of the symbols that an input defines: the second and third phases of Link_Merge, and the whole.
use mathlib.Core.Path.{subst}
use mathlib.Core.Option.{some-injective}
use ivan_cc.Prelude.{
  ℕ, zero, suc, ◌+◌, Bool, true, false, ◌&&◌, Option, none, some, List, [], ◌∷◌, ◌≡◌, refl, sym,
  ◌∙◌, inl, inr, get_elem?, get_elem?-set_self, get_elem?-append_left, get_elem?-append_next,
  lt_of_get_elem?, append-nil, Outcome, ◌>>=◌, Ends, Ends->>=, Ends-weaken, Bool-cases, arith, ◌==◌,
}
use ivan_cc.Prelude.Name.{eq_of_name_eq}
use ivan_cc.Elf.Object.{Elf, Sec, Sym, Rela, symbol_add, rela_add, bind_local}
use ivan_cc.Elf.Extends.{Extends, Extends-refl, Extends-set, Extends-trans}
use ivan_cc.Link.Index.{find_global, is_global, symbol_index}
use ivan_cc.Link.Symbols.{find_global-In}
use ivan_cc.Link.Merge.{
  Base, copied, add_copy, define_global, unify, merge_global, merge_by, merge_symbol, merge_symbols,
  rebased, put_rela, merge_rela, merge_relas, merge_all_relas,
}
use ivan_cc.Link.Resolved.{
  Any, AllHold, Goes, Ends-Any, place_of-Goes, Stay, Stay-refl, Stays, Stays-refl, Stays-trans,
  Stays-set,
}

-- A symbol of the output that stands for the input symbol.
abbrev pub StandsFor : Elf → List Sec → Sym → Sym → Type 0
StandsFor in_ secs symbol t = (t.name ≡ symbol.name) × Goes in_ secs symbol t.sec t.value

-- An output into which a symbol has been merged, at the place `p`.
record Landed (in_ : Elf) (secs : List Sec) (symbol : Sym) (out : Elf) (p : ℕ) (out' : Elf)
    : Type 0 where
  pub same_secs : out'.secs ≡ out.secs
  pub stays : Stays out.syms out'.syms
  pub there : (t : Sym) × (get_elem? out'.syms p ≡ some t) × StandsFor in_ secs symbol t

module _ (in_ : Elf) (secs : List Sec) (symbol : Sym) (out : Elf) where
  LandedAt : ℕ × Elf → Type 0
  LandedAt r = Landed in_ secs symbol out r.0 r.1

  add_copy-Landed :
      (dsec : Option ℕ) (value : ℕ)
      → Goes in_ secs symbol dsec value
      → Ends Any LandedAt (add_copy (copied symbol dsec value) out)
  unfolding add_copy symbol_add LandedAt
  add_copy-Landed dsec value g = record {
    same_secs = refl;
    stays = λ p t e.
        (t, get_elem?-append_left out.syms (copied symbol dsec value ∷ []) p t e, Stay-refl t);
    there = (
      copied symbol dsec value,
      get_elem?-append_next out.syms [] (copied symbol dsec value),
      (refl, g),
    );
  }

  define_global-Landed :
      (e : ℕ) (existing : Sym) (d value : ℕ) (o : Option ℕ)
      → get_elem? out.syms e ≡ some existing
      → existing.name ≡ symbol.name
      → existing.sec ≡ o
      → Goes in_ secs symbol (some d) value
      → Ends Any LandedAt (define_global e existing symbol d value out)
  unfolding define_global LandedAt
  define_global-Landed e existing d value (some j) at same q g = rw (Ends, q) tt
  define_global-Landed e existing d value none at same q g =
      let new : Sym = record existing { sec = some d; value = value; type = symbol.type } in
      rw (Ends, q)
        (record {
          same_secs = refl;
          stays =
              Stays-set out.syms e existing new at
                (record { same_name = refl; same_place = λ k is_k. cc (is_k, q) });
          there = (
            new,
            get_elem?-set_self out.syms e new (lt_of_get_elem? out.syms e existing at),
            (same, g),
          );
        })

  unify-Landed :
      (e : ℕ) (existing : Sym) (dsec : Option ℕ) (value : ℕ)
      → get_elem? out.syms e ≡ some existing
      → existing.name ≡ symbol.name
      → Goes in_ secs symbol dsec value
      → Ends Any LandedAt (unify e symbol dsec value out)
  unfolding unify LandedAt
  unify-Landed e existing none value at same g = record {
    same_secs = refl;
    stays = Stays-refl out.syms;
    there = (existing, at, (same, λ j sec is_j at_j. let (b, h, d, v) = g j sec is_j at_j in cc d));
  }
  unify-Landed e existing (some d) value at same g =
      rw (Ends, at) (define_global-Landed e existing d value existing.sec at same refl g)

  merge_by-Landed :
      (dsec : Option ℕ) (value : ℕ)
      → Goes in_ secs symbol dsec value
      → Ends Any LandedAt (merge_by symbol dsec value out)
  unfolding merge_by merge_global
  merge_by-Landed dsec value g = elim (Bool-cases (symbol.bind == bind_local)) [
    | inl e ↦ rw (Ends, e) (add_copy-Landed dsec value g)
    | inr e ↦ rw (Ends, e) (go (find_global symbol.name 0 out.syms) refl)
  ]
    where
      go :
          (o : Option ℕ)
          → find_global symbol.name 0 out.syms ≡ o
          → Ends Any LandedAt (merge_global symbol dsec value out)
      go none q = rw (Ends, q) (add_copy-Landed dsec value g)
      go (some e) q =
          let (j, existing, same, at, h) = find_global-In symbol.name 0 out.syms e q in
          let back : j ≡ e = omega (arith, same) in
          let named = eq_of_name_eq existing.name symbol.name (second (is_global existing) h) in
          rw (Ends, q)
            (unify-Landed e existing dsec value
              (subst (λ k. get_elem? out.syms k ≡ some existing) back at) named g)
        where
          second : (a : Bool) {b : Bool} → (a && b) ≡ true → b ≡ true
          second true h = h
          second false h = cc

pub StandsFor-Stay :
    (in_ : Elf) (secs : List Sec) (symbol t t' : Sym)
    → Stay t t'
    → StandsFor in_ secs symbol t
    → StandsFor in_ secs symbol t'
StandsFor-Stay in_ secs symbol t t' s (named, goes) = (
  s.same_name ∙ named,
  λ j sec is_j at.
      let (b, h, d, v) = goes j sec is_j at in
      let (d', v') = s.same_place b.sec d in (b, h, d', v' ∙ v),
)

-- Every symbol of `syms` has one that stands for it.
abbrev pub AllStand : Elf → List Sec → List Sym → List Sym → Type 0
AllStand in_ secs syms outs =
    (i : ℕ) (symbol : Sym)
    → get_elem? syms i ≡ some symbol
    → (p : ℕ) × (t : Sym) × (get_elem? outs p ≡ some t) × StandsFor in_ secs symbol t

pub record AllLanded (in_ : Elf) (secs : List Sec) (syms : List Sym) (out out' : Elf) : Type 0 where
  pub same_secs : out'.secs ≡ out.secs
  pub stays : Stays out.syms out'.syms
  pub there : AllStand in_ secs syms out'.syms

AllLanded-next :
    (in_ : Elf) (secs : List Sec) (symbol : Sym) (syms : List Sym) (out out₁ out₂ : Elf) (p : ℕ)
    → Landed in_ secs symbol out p out₁
    → AllLanded in_ secs syms out₁ out₂
    → AllLanded in_ secs (symbol ∷ syms) out out₂
AllLanded-next in_ secs symbol syms out out₁ out₂ p a b = record {
  same_secs = b.same_secs ∙ a.same_secs;
  stays = Stays-trans out.syms out₁.syms out₂.syms a.stays b.stays;
  there = there;
}
  where
    there : AllStand in_ secs (symbol ∷ syms) out₂.syms
    there zero s e =
        let (t, at, stands) = a.there in
        let (t', at', stay) = b.stays p t at in
        (
          p,
          t',
          at',
          StandsFor-Stay in_ secs s t t' stay
              (subst (λ z. StandsFor in_ secs z t) (some-injective _ _ e) stands),
        )
    there (suc i) s e = b.there i s e

pub merge_symbols-AllLanded :
    (in_ : Elf) (secs : List Sec) (bases : List Base) (syms : List Sym) (out : Elf)
    → AllHold secs bases in_.secs
    → Ends Any (λ r. AllLanded in_ secs syms out r.1) (merge_symbols in_ bases syms out)
unfolding merge_symbols merge_symbol LandedAt
merge_symbols-AllLanded in_ secs bases [] out h = record {
  same_secs = refl;
  stays = Stays-refl out.syms;
  there = λ i s e. cc;
}
merge_symbols-AllLanded in_ secs bases (symbol ∷ syms) out h =
    Ends->>= Any (λ (r : ℕ × Elf). Landed in_ secs symbol out r.0 r.1)
      (λ (r : List ℕ × Elf). AllLanded in_ secs (symbol ∷ syms) out r.1) _ _
      (Ends->>= Any (λ (r : Option ℕ × ℕ). Goes in_ secs symbol r.0 r.1)
        (λ (r : ℕ × Elf). Landed in_ secs symbol out r.0 r.1) _ _
        (place_of-Goes in_ secs bases symbol symbol.sec h refl)
        (λ r goes. merge_by-Landed in_ secs symbol out r.0 r.1 goes))
      (λ r landed.
        Ends->>= Any (λ (q : List ℕ × Elf). AllLanded in_ secs syms r.1 q.1)
          (λ (q : List ℕ × Elf). AllLanded in_ secs (symbol ∷ syms) out q.1) _ _
          (merge_symbols-AllLanded in_ secs bases syms r.1 h)
          (λ q all. AllLanded-next in_ secs symbol syms out r.1 q.1 r.0 landed all))

-- The third phase changes no byte.
put_rela-Extends :
    (b : Base) (rel : Rela) (secs : List Sec) → Ends Any (Extends secs) (put_rela b rel secs)
put_rela-Extends b rel secs = go (get_elem? secs b.sec) refl
  where
    go : (o : Option Sec) → get_elem? secs b.sec ≡ o → Ends Any (Extends secs) (put_rela b rel secs)
    go none e = rw (Ends, e) tt
    go (some dst) e =
        rw (Ends, e)
          (Extends-set secs b.sec dst (rela_add rel dst) [] e (sym (append-nil dst.bytes)))

merge_rela-Extends :
    (in_ : Elf) (symmap : List ℕ) (b : Base) (rel : Rela) (secs : List Sec)
    → Ends Any (Extends secs) (merge_rela in_ symmap b rel secs)
unfolding merge_rela
merge_rela-Extends in_ symmap b rel secs = go (symbol_index in_ rel.sym) refl
  where
    mapped :
        (k : ℕ) (o : Option ℕ)
        → get_elem? symmap k ≡ o
        → symbol_index in_ rel.sym ≡ some k
        → Ends Any (Extends secs) (merge_rela in_ symmap b rel secs)
    mapped k none e q = rw (Ends, q, e) tt
    mapped k (some p) e q = rw (Ends, q, e) (put_rela-Extends b (rebased b rel p) secs)

    go :
        (o : Option ℕ)
        → symbol_index in_ rel.sym ≡ o
        → Ends Any (Extends secs) (merge_rela in_ symmap b rel secs)
    go none q = rw (Ends, q) (Extends-refl secs)
    go (some k) q = mapped k (get_elem? symmap k) refl q

-- A step that extends, before others that do.
Ends-Extends :
    (secs : List Sec) (m : Outcome (List Sec)) (rest : List Sec → Outcome (List Sec))
    → Ends Any (Extends secs) m
    → ((secs' : List Sec) → Ends Any (Extends secs') (rest secs'))
    → Ends Any (Extends secs) (m >>= rest)
Ends-Extends secs m rest h next = Ends->>= Any (Extends secs) (Extends secs) m rest h (λ secs' a.
    Ends-weaken Any Any (Extends secs') (Extends secs) (rest secs') (λ e x. x)
      (λ secs'' b. Extends-trans secs secs' secs'' a b) (next secs'))

merge_relas-Extends :
    (in_ : Elf) (symmap : List ℕ) (b : Base) (relas : List Rela) (secs : List Sec)
    → Ends Any (Extends secs) (merge_relas in_ symmap b relas secs)
unfolding merge_relas
merge_relas-Extends in_ symmap b [] secs = Extends-refl secs
merge_relas-Extends in_ symmap b (rel ∷ relas) secs =
    Ends-Extends secs _ _ (merge_rela-Extends in_ symmap b rel secs)
      (merge_relas-Extends in_ symmap b relas)

pub merge_all_relas-Extends :
    (in_ : Elf) (bases : List Base) (symmap : List ℕ) (i : ℕ) (rest secs : List Sec)
    → Ends Any (Extends secs) (merge_all_relas in_ bases symmap i rest secs)
unfolding merge_all_relas
merge_all_relas-Extends in_ bases symmap i [] secs = Extends-refl secs
merge_all_relas-Extends in_ bases symmap i (sec ∷ rest) secs =
    Ends->>= Any (λ (b : Base). Unit {0}) (Extends secs) _ _
      (Ends-Any (λ (b : Base). Unit {0}) _ (λ b. tt))
      (λ b u.
        Ends-Extends secs _ _ (merge_relas-Extends in_ symmap b sec.relas secs)
          (merge_all_relas-Extends in_ bases symmap (i + 1) rest))
