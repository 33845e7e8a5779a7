-- ===== src/Enc/Grows.antt =====
-- What a piece of an instruction adds to a section: bytes, and fixups with their four-byte fields.
use ivan_cc.Prelude.{
  Option, some, ℕ, Bool, true, false, List, [], ◌∷◌, ◌++◌, ◌≡◌, refl, sym, ◌∙◌, ap, ℤ,
  if◌then◌else◌, length, All, All-append, All-map, append_assoc, append-nil, to_word, ◌==◌, leb,
  bit_or,
}
use ivan_cc.Prelude.Name.{Name}
use ivan_cc.Asm.Types.{Reg, reg_num, Width}
use ivan_cc.Enc.Types.{Fix, Site}
use ivan_cc.Enc.Bytes.{
  emit8, emit32, record_fixup, emit_rex_w, emit_mod_rr, emit_mem, emit_rr, emit_grp_imm,
  emit_mov_imm, emit_rex, emit_rex_8, emit_mov_imm8, emit_mem_form, emit_lea_rip, emit_grp_unary,
  emit_setcc,
}
use ivan_cc.Enc.Bytes.{low, mem_mod, mod_rm}
use ivan_cc.Enc.Types.{sib_base_rsp}
use ivan_cc.Enc.Rex
use ivan_cc.Enc.Mod

-- Four zero bytes at `off`.
pub record Field (bytes : List ℕ) (off : ℕ) : Type 0 where
  pub before : List ℕ
  pub behind : List ℕ
  pub split : bytes ≡ before ++ 0 ∷ 0 ∷ 0 ∷ 0 ∷ behind
  pub place : length before ≡ off

pub Field-append : (xs ys : List ℕ) (off : ℕ) → Field xs off → Field (xs ++ ys) off
Field-append xs ys off f = record {
  before = f.before;
  behind = f.behind ++ ys;
  split = ap (λ zs. zs ++ ys) f.split ∙ append_assoc f.before _ ys;
  place = f.place;
}

-- The fixup has a name.
abbrev pub HasName : Fix → Type 0
HasName f = (name : Name) × (f.name ≡ some name)

abbrev pub Pending : ℕ → List ℕ → Fix → Type 0
Pending sec bytes f = (f.sec ≡ sec) × Field bytes f.off × HasName f

pub record Grows (s s' : Site) : Type 0 where
  pub same : s'.sec ≡ s.sec
  pub more : List ℕ
  pub longer : s'.bytes ≡ s.bytes ++ more
  pub added : List Fix
  pub fixed : s'.fixes ≡ s.fixes ++ added
  pub fields : All (Pending s.sec s'.bytes) added

module _ (s : Site) where
  pub Grows-refl : Grows s s
  Grows-refl = record {
    same = refl;
    more = [];
    longer = sym (append-nil s.bytes);
    added = [];
    fixed = sym (append-nil s.fixes);
    fields = tt;
  }

  pub wrote : (xs : List ℕ) (a : Site) → Grows s a → Grows s (record a { bytes = a.bytes ++ xs })
  wrote xs a g = record {
    same = g.same;
    more = g.more ++ xs;
    longer = ap (λ zs. zs ++ xs) g.longer ∙ append_assoc s.bytes g.more xs;
    added = g.added;
    fixed = g.fixed;
    fields =
        All-map (Pending s.sec a.bytes) (Pending s.sec (a.bytes ++ xs)) g.added
          (λ f p. (p.0, Field-append a.bytes xs f.off p.1, p.2)) g.fields;
  }

  pub choose : (c : Bool) (a b : Site) → Grows s a → Grows s b → Grows s (if c then a else b)
  choose true a b g h = g
  choose false a b g h = h

  pub fixup-Grows :
      (name : Option Name) (type : ℕ) (a : Site)
      → ((n : Name) × (name ≡ some n))
      → Grows s a
      → Grows s (emit32 0 (record_fixup name type a))
  fixup-Grows name type a n g =
      let fix : Fix = record { sec = a.sec; off = length a.bytes; name = name; type = type } in
      let w = wrote (0 ∷ 0 ∷ 0 ∷ 0 ∷ []) a g in
      record {
        same = g.same;
        more = w.more;
        longer = w.longer;
        added = w.added ++ fix ∷ [];
        fixed = ap (λ fs. fs ++ fix ∷ []) w.fixed ∙ append_assoc s.fixes w.added (fix ∷ []);
        fields =
            All-append (Pending s.sec (a.bytes ++ 0 ∷ 0 ∷ 0 ∷ 0 ∷ [])) w.added _ w.fields (
              (g.same, record { before = a.bytes; behind = []; split = refl; place = refl }, n),
              tt,
            );
      }

  pub emit_rex_w-Grows : (i j : ℕ) (a : Site) → Grows s a → Grows s (emit_rex_w i j a)
  unfolding emit_rex_w
  emit_rex_w-Grows i j a g = wrote _ a g

  pub emit_mod_rr-Grows : (i : ℕ) (r : Reg) (a : Site) → Grows s a → Grows s (emit_mod_rr i r a)
  unfolding emit_mod_rr
  emit_mod_rr-Grows i r a g = wrote _ a g

  pub emit_mem-Grows :
      (i : ℕ) (r : Reg) (disp : ℤ) (a : Site) → Grows s a → Grows s (emit_mem i r disp a)
  unfolding emit_mem
  emit_mem-Grows i r disp a g =
      let rm = low (reg_num r) in
      let m = mem_mod rm disp in
      let s₁ = emit8 (mod_rm m i rm) a in
      let s₂ = if rm == low (reg_num Reg.rsp) then emit8 sib_base_rsp s₁ else s₁ in
      let g₁ = wrote _ a g in
      let g₂ = choose (rm == low (reg_num Reg.rsp)) (emit8 sib_base_rsp s₁) s₁ (wrote _ s₁ g₁) g₁ in
      let long = choose (m == Mod.disp32) (emit32 (to_word 32 disp) s₂) s₂ (wrote _ s₂ g₂) g₂ in
      choose (m == Mod.disp8) (emit8 (to_word 8 disp) s₂) _ (wrote _ s₂ g₂) long

  pub emit_rr-Grows : (i : ℕ) (q r : Reg) (a : Site) → Grows s a → Grows s (emit_rr i q r a)
  unfolding emit_rr
  emit_rr-Grows i q r a g = emit_mod_rr-Grows _ _ _ (wrote _ _ (emit_rex_w-Grows _ _ a g))

  pub emit_grp_imm-Grows :
      (i : ℕ) (imm : ℤ) (r : Reg) (a : Site) → Grows s a → Grows s (emit_grp_imm i imm r a)
  unfolding emit_grp_imm
  emit_grp_imm-Grows i imm r a g =
      wrote _ _ (emit_mod_rr-Grows _ _ _ (wrote _ _ (emit_rex_w-Grows _ _ a g)))

  pub emit_mov_imm-Grows :
      (imm : ℤ) (r : Reg) (a : Site) → Grows s a → Grows s (emit_mov_imm imm r a)
  unfolding emit_mov_imm
  emit_mov_imm-Grows imm r a g =
      let t = emit_rex_w-Grows _ _ a g in
      choose _ _ _ (wrote _ _ (emit_mod_rr-Grows _ _ _ (wrote _ _ t))) (wrote _ _ (wrote _ _ t))

  pub emit_rex-Grows : (w : Width) (q r : Reg) (a : Site) → Grows s a → Grows s (emit_rex w q r a)
  unfolding emit_rex
  emit_rex-Grows w q r a g = choose _ _ _ (wrote _ a g) g

  pub emit_rex_8-Grows : (r : Reg) (a : Site) → Grows s a → Grows s (emit_rex_8 r a)
  unfolding emit_rex_8
  emit_rex_8-Grows r a g =
      let next = choose (leb (reg_num Reg.rsp) (reg_num r)) (emit8 Rex.base a) a (wrote _ a g) g in
      choose (leb (reg_num Reg.r8) (reg_num r)) (emit8 (bit_or Rex.base Rex.b) a) _ (wrote _ a g)
        next

  pub emit_mov_imm8-Grows :
      (imm : ℤ) (r : Reg) (a : Site) → Grows s a → Grows s (emit_mov_imm8 imm r a)
  unfolding emit_mov_imm8
  emit_mov_imm8-Grows imm r a g = wrote _ _ (wrote _ _ (emit_rex_8-Grows r a g))

  pub emit_mem_form-Grows :
      (i : ℕ) (q r : Reg) (disp : ℤ) (w : Width) (a : Site)
      → Grows s a
      → Grows s (emit_mem_form i q r disp w a)
  unfolding emit_mem_form
  emit_mem_form-Grows i q r disp w a g =
      emit_mem-Grows _ _ _ _ (wrote _ _ (emit_rex-Grows w q r a g))

  pub emit_lea_rip-Grows :
      (r : Reg) (l : Name) (a : Site) → Grows s a → Grows s (emit_lea_rip r l a)
  unfolding emit_lea_rip
  emit_lea_rip-Grows r l a g =
      fixup-Grows _ _ _ (l, refl) (wrote _ _ (wrote _ _ (emit_rex_w-Grows _ _ a g)))

  pub emit_grp_unary-Grows :
      (i : ℕ) (r : Reg) (a : Site) → Grows s a → Grows s (emit_grp_unary i r a)
  unfolding emit_grp_unary
  emit_grp_unary-Grows i r a g = emit_mod_rr-Grows _ _ _ (wrote _ _ (emit_rex_w-Grows _ _ a g))

  pub emit_setcc-Grows : (i : ℕ) (r : Reg) (a : Site) → Grows s a → Grows s (emit_setcc i r a)
  unfolding emit_setcc
  emit_setcc-Grows i r a g =
      emit_mod_rr-Grows _ _ _ (wrote _ _ (wrote _ _ (emit_rex_8-Grows r a g)))
