-- ===== src/Link/Merged.antt =====
-- What Link_Merge ensures: the third phase, and the three together.
use mathlib.Core.Path.{subst}
use ivan_cc.Prelude.{
  ℕ, ◌+◌, ◌≤◌, ◌<◌, some, List, [], ◌∷◌, ◌++◌, ◌≡◌, refl, sym, ap, All, All-map, All-set,
  All-append, All-get_elem?, append_assoc, length, length-append, get_elem?, get_elem?_of_lt,
  get_elem?-append_next, Ends, Ends->>=, Ends-weaken, arith,
}
use ivan_cc.Elf.Object.{Elf, Sec, Rela, rela_add}
use ivan_cc.Elf.Lookup.{section_at-ok}
use ivan_cc.Link.Whole.{
  Sound, SecSound, SecSound-weaken, Within, Within-weaken, IsObject, Grown, Grown-refl, Grown-trans,
  Grown-set,
}
use ivan_cc.Link.Merge.{Base, rebased, put_rela, merge_rela, merge_relas, merge_all_relas, merge}
use ivan_cc.Link.Sections.{Lies, Lies-Grown, AllLie, Merged, merge_sections-Merged}
use ivan_cc.Link.Symbols.{IsMultiple, symbol_index_from-ok, AllNamed, merge_symbols-AllNamed}

-- Sections that the third phase makes from `secs`.
abbrev Kept : ℕ → List Sec → List Sec → Type 0
Kept n secs secs' = Grown secs secs' × All (SecSound n) secs'

put_rela-Kept :
    (n k size p : ℕ) (b : Base) (rel : Rela) (secs : List Sec)
    → p < n
    → Sound k size rel
    → Lies secs b size
    → All (SecSound n) secs
    → Ends IsMultiple (Kept n secs) (put_rela b (rebased b rel p) secs)
put_rela-Kept n k size p b rel secs lp s (dst, at, inside) h =
    let new = rela_add (rebased b rel p) dst in
    let sound : Sound n (length dst.bytes) (rebased b rel p) = record {
      supported = s.supported;
      inside = omega (arith, s.inside);
      target = (p, refl, lp);
    } in
    let whole : SecSound n new =
      All-append (Sound n (length dst.bytes)) dst.relas (rebased b rel p ∷ [])
        (All-get_elem? (SecSound n) secs b.sec dst h at) (sound, tt) in
    rw (Ends, section_at-ok secs b.sec dst at)
      (Grown-set secs b.sec dst new at (omega arith), All-set (SecSound n) secs b.sec new whole h)

merge_rela-Kept :
    (n size : ℕ) (in_ : Elf) (symmap : List ℕ) (b : Base) (rel : Rela) (secs : List Sec)
    → length symmap ≡ length in_.syms
    → All (λ p. p < n) symmap
    → Sound (length in_.syms) size rel
    → Lies secs b size
    → All (SecSound n) secs
    → Ends IsMultiple (Kept n secs) (merge_rela in_ symmap b rel secs)
unfolding merge_rela
merge_rela-Kept n size in_ symmap b rel secs whole there s lies h =
    let (i, is_i, l) = s.target in
    let (p, at) = get_elem?_of_lt symmap i (omega (arith, whole)) in
    let found = symbol_index_from-ok i 0 in_.syms (omega arith) (omega arith) in
    rw (Ends, is_i, found, at)
      (put_rela-Kept n (length in_.syms) size p b rel secs
        (All-get_elem? (λ p. p < n) symmap i p there at) s lies h)

merge_relas-Kept :
    (n size : ℕ) (in_ : Elf) (symmap : List ℕ) (b : Base) (relas : List Rela) (secs : List Sec)
    → length symmap ≡ length in_.syms
    → All (λ p. p < n) symmap
    → All (Sound (length in_.syms) size) relas
    → Lies secs b size
    → All (SecSound n) secs
    → Ends IsMultiple (Kept n secs) (merge_relas in_ symmap b relas secs)
unfolding merge_relas
merge_relas-Kept n size in_ symmap b [] secs whole there s lies h = (Grown-refl secs, h)
merge_relas-Kept n size in_ symmap b (rel ∷ relas) secs whole there s lies h =
    Ends->>= IsMultiple (Kept n secs) (Kept n secs) _ _
      (merge_rela-Kept n size in_ symmap b rel secs whole there s.0 lies h)
      (λ secs' kept.
        Ends-weaken IsMultiple IsMultiple (Kept n secs') (Kept n secs) _ (λ e x. x)
          (λ secs'' k. (Grown-trans secs secs' secs'' kept.0 k.0, k.1))
          (merge_relas-Kept n size in_ symmap b relas secs' whole there s.1
            (Lies-Grown secs secs' b size kept.0 lies) kept.1))

-- The bases from place `i` on are those of the sections.
abbrev Based : List Base → ℕ → List Sec → List Sec → Type 0
Based bases i [] secs = Unit
Based bases i (sec ∷ rest) secs =
    ((b : Base) × (get_elem? bases i ≡ some b) × Lies secs b (length sec.bytes))
    × Based bases (i + 1) rest secs

Based-Grown :
    (bases : List Base) (i : ℕ) (rest xs ys : List Sec)
    → Grown xs ys
    → Based bases i rest xs
    → Based bases i rest ys
Based-Grown bases i [] xs ys g h = tt
Based-Grown bases i (sec ∷ rest) xs ys g h =
    let (b, at, lies) = h.0 in
    (
      (b, at, Lies-Grown xs ys b (length sec.bytes) g lies),
      Based-Grown bases (i + 1) rest xs ys g h.1,
    )

Based-AllLie :
    (before bases : List Base) (rest secs : List Sec)
    → AllLie secs bases rest
    → Based (before ++ bases) (length before) rest secs
Based-AllLie before [] [] secs h = tt
Based-AllLie before [] (sec ∷ rest) secs h = elim h [ ]
Based-AllLie before (b ∷ bases) [] secs h = tt
Based-AllLie before (b ∷ bases) (sec ∷ rest) secs h = (
  (b, get_elem?-append_next before bases b, h.0),
  next (Based-AllLie (before ++ b ∷ []) bases rest secs h.1),
)
  where
    longer : length (before ++ b ∷ []) ≡ length before + 1
    longer = omega (arith, length-append before (b ∷ []))

    next :
        Based ((before ++ b ∷ []) ++ bases) (length (before ++ b ∷ [])) rest secs
        → Based (before ++ b ∷ bases) (length before + 1) rest secs
    next again =
        subst (λ i. Based (before ++ b ∷ bases) i rest secs) longer
          (subst (λ bs. Based bs (length (before ++ b ∷ [])) rest secs)
            (append_assoc before (b ∷ []) bases) again)

merge_all_relas-Kept :
    (n i : ℕ) (in_ : Elf) (bases : List Base) (symmap : List ℕ) (rest secs : List Sec)
    → length symmap ≡ length in_.syms
    → All (λ p. p < n) symmap
    → All (SecSound (length in_.syms)) rest
    → Based bases i rest secs
    → All (SecSound n) secs
    → Ends IsMultiple (Kept n secs) (merge_all_relas in_ bases symmap i rest secs)
unfolding merge_all_relas
merge_all_relas-Kept n i in_ bases symmap [] secs whole there s based h = (Grown-refl secs, h)
merge_all_relas-Kept n i in_ bases symmap (sec ∷ rest) secs whole there s based h =
    let (b, at, lies) = based.0 in
    rw (Ends, at)
      (Ends->>= IsMultiple (Kept n secs) (Kept n secs) _ _
        (merge_relas-Kept n (length sec.bytes) in_ symmap b sec.relas secs whole there s.0 lies h)
        (λ secs' kept.
          Ends-weaken IsMultiple IsMultiple (Kept n secs') (Kept n secs) _ (λ e x. x)
            (λ secs'' k. (Grown-trans secs secs' secs'' kept.0 k.0, k.1))
            (merge_all_relas-Kept n (i + 1) in_ bases symmap rest secs' whole there s.1
              (Based-Grown bases (i + 1) rest secs secs' kept.0 based.1) kept.1)))

-- The sections and symbols behind the third phase.
finished :
    (in_ out out₁ out₂ : Elf) (bases : List Base) (symmap : List ℕ)
    → IsObject in_
    → Merged (length out.syms) out out₁
    → AllLie out₁.secs bases in_.secs
    → AllNamed (length out₁.secs) (length in_.syms) out₁ symmap out₂
    → Ends IsMultiple
        (λ secs. IsObject (record out₂ { secs = secs }))
        (merge_all_relas in_ bases symmap 0 in_.secs out₂.secs)
finished in_ out out₁ out₂ bases symmap object merged lie named =
    let n = length out₂.syms in
    let more : length out.syms ≤ n =
      omega (arith, named.more, ap (λ e. length e) merged.same_syms) in
    let sound₁ : All (SecSound n) out₁.secs =
      All-map (SecSound (length out.syms)) (SecSound n) out₁.secs
        (SecSound-weaken (length out.syms) n more) merged.sound in
    let sound₂ : All (SecSound n) out₂.secs =
      subst (All (SecSound n)) (sym named.same_secs) sound₁ in
    let based : Based bases 0 in_.secs out₂.secs =
      subst (Based bases 0 in_.secs) (sym named.same_secs)
        (Based-AllLie [] bases in_.secs out₁.secs lie) in
    Ends-weaken IsMultiple IsMultiple (Kept n out₂.secs)
      (λ secs. IsObject (record out₂ { secs = secs })) _ (λ e x. x)
      (λ secs kept. record {
        relas = kept.1;
        symbols =
            All-map (λ s. Within (length out₁.secs) s.sec) (λ s. Within (length secs) s.sec)
              out₂.syms
              (λ s.
                Within-weaken (length out₁.secs) (length secs) s.sec
                  (omega (arith, kept.0.longer, ap (λ e. length e) named.same_secs)))
              named.within;
      })
      (merge_all_relas-Kept n 0 in_ bases symmap in_.secs out₂.secs named.whole named.there
        object.relas based sound₂)

-- Link_Merge of an input into an output, both with relocations of the kinds that the linker knows, within their sections
-- and naming symbols of the table, and with symbols in sections of the object: it ends with an output that is such an
-- object again, or reports a second definition of a global. It follows no null pointer, and reads and writes inside its
-- arrays.
pub merge-IsObject :
    (out in_ : Elf) → IsObject out → IsObject in_ → Ends IsMultiple IsObject (merge out in_)
unfolding merge
merge-IsObject out in_ o i =
    let (bases, out₁, e₁, merged, lie) =
      merge_sections-Merged (length out.syms) in_.secs out o.relas in
    rw (Ends, e₁)
      (Ends->>= IsMultiple
        (λ (r : List ℕ × Elf). AllNamed (length out₁.secs) (length in_.syms) out₁ r.0 r.1) IsObject
        _ _
        (merge_symbols-AllNamed in_ out₁.secs bases in_.syms out₁ lie i.symbols
          (within out₁ merged))
        (λ r named.
          Ends->>= IsMultiple (λ secs. IsObject (record r.1 { secs = secs })) IsObject _ _
            (finished in_ out out₁ r.1 bases r.0 i merged lie named) (λ secs whole. whole)))
  where
    within :
        (out₁ : Elf)
        → Merged (length out.syms) out out₁
        → All (λ s. Within (length out₁.secs) s.sec) out₁.syms
    within out₁ merged = subst (All (λ s. Within (length out₁.secs) s.sec)) (sym merged.same_syms) (
        All-map (λ s. Within (length out.secs) s.sec) (λ s. Within (length out₁.secs) s.sec)
          out.syms
          (λ s. Within-weaken (length out.secs) (length out₁.secs) s.sec merged.grown.longer)
          o.symbols)
