-- ===== src/Enc/Sound.antt =====
-- The states of the encoder while it walks the list: every place that it keeps is in the object.
use mathlib.Core.Path.{subst}
use ivan_cc.Prelude.{
  All, ℕ, Option, none, some, List, [], ◌∷◌, ◌++◌, ◌≡◌, refl, sym, ◌∙◌, ap, length, All, All-append,
  All-map, All-set, get_elem?, set, get_elem?-set_self, get_elem?-append_next, lt_of_get_elem?,
  All-get_elem?, ok, ◌>>=◌, arith,
}
use ivan_cc.Prelude.Name.{Name}
use ivan_cc.Asm.Types.{Item}
use ivan_cc.Elf.Lookup.{In, find_sec-In, section_at-ok}
use ivan_cc.Elf.Extends.{Extends, Extends-refl, Extends-append, Extends-set, In-Extends}
use ivan_cc.Elf.Object.{Elf, Sec, section_get, section_find, section_add, empty_section}
use ivan_cc.Enc.Types.{Fix, Site}
use ivan_cc.Enc.Object.{
  Enc, site_of, put_site, on_site, new_label, record_label, record_globl, select_section, emit_item,
  emit_items,
}
use ivan_cc.Enc.Instr.{emit_instr}
use ivan_cc.Enc.Bytes.{emit_raw}
use ivan_cc.Enc.Writes.{IsNamed, emit_instr-Grows, emit_raw-Grows}
use ivan_cc.Enc.Grows.{Field, Field-append, HasName, Pending, Grows}

-- The fixup has a name, and its section is there and has its four zero bytes.
abbrev pub FixIn : List Sec → Fix → Type 0
FixIn secs f = (sec : Sec) × (get_elem? secs f.sec ≡ some sec) × Field sec.bytes f.off × HasName f

pub FixIn-Extends : (xs ys : List Sec) → Extends xs ys → (f : Fix) → FixIn xs f → FixIn ys f
FixIn-Extends xs ys ext f (a, e, d, n) =
    let (b, e', (more, l)) = ext f.sec a e in
    (b, e', subst (λ bs. Field bs f.off) (sym l) (Field-append a.bytes more f.off d), n)

abbrev pub Bare : List Sec → Type 0
Bare = All (λ sec. sec.relas ≡ [])

pub record Wf (e : Enc) : Type 0 where
  pub here : In e.out.secs e.cur
  pub labelled : All (λ l. In e.out.secs l.sec) e.labels
  pub pending : All (FixIn e.out.secs) e.fixes
  pub bare : Bare e.out.secs

-- A state whose object extends that of a well-formed one.
Wf-Extends :
    (e : Enc) (ys : List Sec)
    → Wf e
    → Extends e.out.secs ys
    → In ys e.cur × All (λ l. In ys l.sec) e.labels × All (FixIn ys) e.fixes
Wf-Extends e ys w x = (
  In-Extends e.out.secs ys x e.cur w.here,
  All-map _ _ e.labels (λ l. In-Extends e.out.secs ys x l.sec) w.labelled,
  All-map _ _ e.fixes (FixIn-Extends e.out.secs ys x) w.pending,
)

on_site-Wf :
    (f : Site → Site) (e : Enc)
    → ((s : Site) → Grows s (f s))
    → Wf e
    → (e' : Enc) × (on_site f e ≡ ok e') × Wf e'
unfolding on_site
on_site-Wf f e grows w =
    let (sec, h) = w.here in
    let s = f (site_of e sec) in
    let g = grows (site_of e sec) in
    let b : Sec = record sec { bytes = s.bytes } in
    let at_cur = get_elem?-set_self e.out.secs e.cur b (lt_of_get_elem? e.out.secs e.cur sec h) in
    let x = Extends-set e.out.secs e.cur sec b g.more h g.longer in
    let (here, labelled, pending) = Wf-Extends e _ w x in
    (
      put_site e sec s,
      ap (λ o. o >>= λ c. ok (put_site e c (f (site_of e c))))
          (section_at-ok e.out.secs e.cur sec h),
      record {
        here = here;
        labelled = labelled;
        pending = subst (All (FixIn (set e.out.secs e.cur b))) (sym g.fixed) (
            All-append (FixIn (set e.out.secs e.cur b)) e.fixes g.added pending (
              All-map (Pending e.cur s.bytes) (FixIn (set e.out.secs e.cur b)) g.added
                (λ f p. (
                  b,
                  subst (λ n. get_elem? (set e.out.secs e.cur b) n ≡ some b) (sym p.0) at_cur,
                  p.1,
                  p.2,
                ))
                g.fields));
        bare =
            All-set (λ sec. sec.relas ≡ []) e.out.secs e.cur _
              (All-get_elem? (λ sec. sec.relas ≡ []) e.out.secs e.cur sec w.bare h) w.bare;
      },
    )

record_label-Wf :
    (name : Name) (e : Enc) → Wf e → (e' : Enc) × (record_label name e ≡ ok e') × Wf e'
unfolding record_label
record_label-Wf name e w =
    let (sec, h) = w.here in
    (
      record e { labels = e.labels ++ new_label name e sec ∷ [] },
      ap (λ o. o >>= λ c. ok (record e { labels = e.labels ++ new_label name e c ∷ [] }))
          (section_at-ok e.out.secs e.cur sec h),
      record {
        here = w.here;
        labelled = All-append (λ l. In e.out.secs l.sec) e.labels _ w.labelled (w.here, tt);
        pending = w.pending;
        bare = w.bare;
      },
    )

-- The state on an object that extends its own, at a place of the object.
moved-Wf :
    (e : Enc) (elf : Elf) (i : ℕ)
    → Wf e
    → Extends e.out.secs elf.secs
    → In elf.secs i
    → Bare elf.secs
    → Wf (record e { out = elf; cur = i })
moved-Wf e elf i w x at_i bare =
    let (here, labelled, pending) = Wf-Extends e elf.secs w x in
    record { here = at_i; labelled = labelled; pending = pending; bare = bare }

select_section-Wf :
    (name : Name) (type flags : ℕ) (e : Enc) → Wf e → Wf (select_section name type flags e)
unfolding select_section section_get
select_section-Wf name type flags e w = go (section_find e.out name) refl
  where
    elf : Elf
    elf = section_add name type flags e.out

    go :
        (o : Option ℕ)
        → section_find e.out name ≡ o
        → Wf (
            let r : ℕ × Elf = elim o [ some i ↦ (i, e.out) | none ↦ (length e.out.secs, elf) ] in
            record e { out = r.1; cur = r.0 })
    go (some k) h =
        let (j, k=j, at_j) = find_sec-In name 0 e.out.secs k h in
        let j=k : j ≡ k = omega arith in
        moved-Wf e e.out k w (Extends-refl e.out.secs) (subst (In e.out.secs) j=k at_j) w.bare
    go none h =
        let new = empty_section name type flags in
        moved-Wf e elf (length e.out.secs) w (Extends-append e.out.secs (new ∷ []))
          (new, get_elem?-append_next e.out.secs [] new)
          (All-append (λ sec. sec.relas ≡ []) e.out.secs (new ∷ []) w.bare (refl, tt))

-- A branch names its target.
abbrev pub HasTarget : Item → Type 0
HasTarget (Item.instr op dst src) = IsNamed op dst
HasTarget _ = Unit

emit_item-Wf :
    (item : Item) (e : Enc)
    → HasTarget item
    → Wf e
    → (e' : Enc) × (emit_item item e ≡ ok e') × Wf e'
unfolding emit_item
emit_item-Wf (Item.instr op dst src) e n w =
    on_site-Wf (emit_instr op dst src) e (λ s. emit_instr-Grows op dst src s n) w
emit_item-Wf (Item.label name) e n w = record_label-Wf name e w
emit_item-Wf (Item.section name type flags) e n w =
    (select_section name type flags e, refl, select_section-Wf name type flags e w)
emit_item-Wf (Item.bytes data_) e n w = on_site-Wf (emit_raw data_) e (emit_raw-Grows data_) w
emit_item-Wf (Item.globl name) e n w = (
  record_globl name e,
  refl,
  record { here = w.here; labelled = w.labelled; pending = w.pending; bare = w.bare },
)
emit_item-Wf (Item.directive text) e n w = (e, refl, w)

pub emit_items-Wf :
    (items : List Item) (e : Enc)
    → All HasTarget items
    → Wf e
    → (e' : Enc) × (emit_items items e ≡ ok e') × Wf e'
unfolding emit_items
emit_items-Wf [] e n w = (e, refl, w)
emit_items-Wf (item ∷ items) e n w =
    let (e₁, h, w₁) = emit_item-Wf item e n.0 w in
    let (e₂, h', w₂) = emit_items-Wf items e₁ n.1 w₁ in
    (e₂, ap (λ o. o >>= emit_items items) h ∙ h', w₂)
