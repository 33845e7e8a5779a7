-- ===== src/Txt/Assembled.antt =====
-- The assembler on the text of items, and the encoder on the items themselves.
use mathlib.Core.Path.{fun_ext}
use ivan_cc.Prelude.{
  ℕ, zero, suc, null_pointer, Bool, true, false, if◌then◌else◌, List, [], ◌∷◌, ◌++◌, ◌≡◌, refl, ap,
  sym, ◌∙◌, All, inl, inr, ◌⊎◌, append_assoc, Outcome, ok, err, ◌>>=◌, map, ℤ, none, some,
  get_elem?, set, bit_or, Option-cases, get_elem?-set_self, lt_of_get_elem?,
}
use ivan_cc.Prelude.Name.{Name, text, name_eq}
use ivan_cc.Asm.Types.{Op, OperandKind, Operand, Item, Reg, Width}
use ivan_cc.Elf.Object.{sht_progbits, shf_alloc, shf_execinstr, Sec, section_at}
use ivan_cc.Enc.Types.{Site}
use ivan_cc.Enc.Bytes.{emit_raw}
use ivan_cc.Enc.Instr.{emit_instr, emit_mov}
use ivan_cc.Enc.Object.{
  Enc, on_site, emit_item, emit_items, build_object, put_site, site_of, build_symbols, build_relocs,
  select_section, reset,
}
use ivan_cc.Str.Chars.{null}
use ivan_cc.Txt.Write.{is_movsx, write}
use ivan_cc.Txt.Line.{parse}
use ivan_cc.Txt.Printable.{
  Prints, plain, reading, readings, pieces, stack_directive, file_directive,
}
use ivan_cc.Txt.RoundTrip.{parse-write}

-- The item that the encoder gets from the text: the directive for the stack has become a section.
unfoldable pub noted : Item → Item
noted (Item.directive line) =
    if name_eq line stack_directive
    then Item.section (text ".note.GNU-stack") sht_progbits 0
    else Item.directive line
noted item = item

-- A destination carries no width of an access, and a run of bytes is not empty.
abbrev pub IsWhole : Item → Type 0
IsWhole (Item.instr op dst src) = plain dst ≡ dst
IsWhole (Item.bytes data_) = null data_ ≡ false
IsWhole _ = Unit

-- The encoder does not look at the width of a source in memory, but for a sign extension.
emit_instr-mem :
    (op : Op) (dst : Operand) (r : Reg) (i d : ℤ) (l : Name) (w v : Width) (s : Site)
    → is_movsx op ≡ false
    → emit_instr op dst
        (record { kind = OperandKind.mem; reg = r; imm = i; disp = d; label = l; width = w })
        s
      ≡ emit_instr op dst
          (record { kind = OperandKind.mem; reg = r; imm = i; disp = d; label = l; width = v })
          s
unfolding emit_instr emit_mov
emit_instr-mem Op.movsx dst r i d l w v s h = cc
emit_instr-mem _ dst r i d l w v s h = refl

emit_instr-plain :
    (op : Op) (dst : Operand) (k : OperandKind) (r : Reg) (i d : ℤ) (l : Name) (w : Width)
    (s : Site)
    → is_movsx op ≡ false
    → emit_instr op dst
        (plain (record { kind = k; reg = r; imm = i; disp = d; label = l; width = w }))
        s
      ≡ emit_instr op dst (record { kind = k; reg = r; imm = i; disp = d; label = l; width = w }) s
emit_instr-plain op dst OperandKind.mem r i d l w s h = emit_instr-mem op dst r i d l 0 w s h
emit_instr-plain op dst _ r i d l w s h = refl

emit_item-instr :
    (op : Op) (dst src : Operand) (e : Enc)
    → plain dst ≡ dst
    → emit_item (reading (Item.instr op dst src)) e ≡ emit_item (Item.instr op dst src) e
unfolding reading emit_item
emit_item-instr op dst src e p = ap (λ f. on_site f e) (fun_ext (λ s. by_op (is_movsx op) refl s))
  where
    by_op :
        (b : Bool)
        → is_movsx op ≡ b
        → (s : Site)
        → emit_instr op (plain dst) (if b then src else plain src) s ≡ emit_instr op dst src s
    by_op true h s = ap (λ z. emit_instr op z src s) p
    by_op false h s =
        ap (λ z. emit_instr op z (plain src) s) p
        ∙ emit_instr-plain op dst src.kind src.reg src.imm src.disp src.label src.width s h

-- Bytes that are written one by one.
set-set {ℓ} : {A : Type ℓ} (xs : List A) (i : ℕ) (v w : A) → set (set xs i v) i w ≡ set xs i w
set-set [] i v w = refl
set-set (x ∷ xs) zero v w = refl
set-set (x ∷ xs) (suc i) v w = ap (λ z. x ∷ z) (set-set xs i v w)

on_site-some :
    (f : Site → Site) (e : Enc) (sec : Sec)
    → get_elem? e.out.secs e.cur ≡ some sec
    → on_site f e ≡ ok (put_site e sec (f (site_of e sec)))
unfolding on_site
on_site-some f e sec h = rw (h, section_at) refl

on_site-none :
    (f : Site → Site) (e : Enc) → get_elem? e.out.secs e.cur ≡ none → on_site f e ≡ err null_pointer
unfolding on_site
on_site-none f e h = rw (h, section_at) refl

-- The section behind the first byte.
abbrev grown : Sec → List ℕ → Sec
grown sec bs = record sec { bytes = sec.bytes ++ bs }

put_raw : (e : Enc) (sec : Sec) (bs : List ℕ) → Enc
put_raw e sec bs = put_site e sec (emit_raw bs (site_of e sec))

put_raw-put_raw :
    (e : Enc) (sec : Sec) (bs cs : List ℕ)
    → put_raw (put_raw e sec bs) (grown sec bs) cs ≡ put_raw e sec (bs ++ cs)
unfolding put_raw
put_raw-put_raw e sec bs cs =
    ap (λ z. record e { out = record e.out { secs = z } })
      (set-set e.out.secs e.cur (grown sec bs) (record sec { bytes = (sec.bytes ++ bs) ++ cs })
        ∙ ap (λ z. set e.out.secs e.cur (record sec { bytes = z })) (append_assoc sec.bytes bs cs))

on_site-append :
    (bs cs : List ℕ) (e : Enc)
    → (on_site (emit_raw bs) e >>= λ e'. on_site (emit_raw cs) e') ≡ on_site (emit_raw (bs ++ cs)) e
on_site-append bs cs e = by_section (Option-cases (get_elem? e.out.secs e.cur))
  where
    second :
        (sec : Sec)
        → get_elem? e.out.secs e.cur ≡ some sec
        → on_site (emit_raw cs) (put_raw e sec bs) ≡ ok (put_raw e sec (bs ++ cs))
    second sec h =
        unfold put_raw in
        (on_site-some (emit_raw cs) (put_site e sec (emit_raw bs (site_of e sec))) (grown sec bs) (
            get_elem?-set_self e.out.secs e.cur (grown sec bs)
              (lt_of_get_elem? e.out.secs e.cur sec h))
          ∙ ap (λ z. ok z) (put_raw-put_raw e sec bs cs))

    by_section :
        (get_elem? e.out.secs e.cur ≡ none)
          ⊎ ((sec : Sec) × (get_elem? e.out.secs e.cur ≡ some sec))
        → (on_site (emit_raw bs) e >>= λ e'. on_site (emit_raw cs) e')
          ≡ on_site (emit_raw (bs ++ cs)) e
    by_section (inl h) =
        ap (λ z. z >>= λ e'. on_site (emit_raw cs) e') (on_site-none (emit_raw bs) e h)
        ∙ sym (on_site-none (emit_raw (bs ++ cs)) e h)
    by_section (inr (sec, h)) =
        ap (λ z. z >>= λ e'. on_site (emit_raw cs) e') (on_site-some (emit_raw bs) e sec h)
        ∙ (unfold put_raw in second sec h ∙ sym (on_site-some (emit_raw (bs ++ cs)) e sec h))

>>=-assoc : (m : Outcome Enc) (f g : Enc → Outcome Enc) → (m >>= λ e. f e >>= g) ≡ ((m >>= f) >>= g)
>>=-assoc (ok e) f g = refl
>>=-assoc (err x) f g = refl

emit_items-bytes :
    (b : ℕ) (bs : List ℕ) (rest : List Item) (e : Enc)
    → emit_items (map (λ c. Item.bytes (c ∷ [])) (b ∷ bs) ++ rest) e
      ≡ emit_items (Item.bytes (b ∷ bs) ∷ rest) e
unfolding emit_items emit_item
emit_items-bytes b [] rest e = refl
emit_items-bytes b (c ∷ bs) rest e =
    ap (λ k. on_site (emit_raw (b ∷ [])) e >>= k) (fun_ext (λ e'. emit_items-bytes c bs rest e'))
    ∙ (>>=-assoc (on_site (emit_raw (b ∷ [])) e) (λ e'. on_site (emit_raw (c ∷ bs)) e')
          (λ e'. emit_items rest e')
        ∙ ap (λ z. z >>= λ e'. emit_items rest e') (on_site-append (b ∷ []) (c ∷ bs) e))

emit_items-cons :
    (x y : Item) (xs ys : List Item)
    → ((e : Enc) → emit_item x e ≡ emit_item y e)
    → ((e : Enc) → emit_items xs e ≡ emit_items ys e)
    → (e : Enc) → emit_items (x ∷ xs) e ≡ emit_items (y ∷ ys) e
unfolding emit_items
emit_items-cons x y xs ys h k e =
    ap (λ z. z >>= λ e'. emit_items xs e') (h e) ∙ ap (λ g. emit_item y e >>= g) (fun_ext k)

emit_items-reading :
    (item : Item) (xs ys : List Item)
    → Prints item
    → IsWhole item
    → ((e : Enc) → emit_items xs e ≡ emit_items ys e)
    → (e : Enc) → emit_items (pieces (reading item) ++ xs) e ≡ emit_items (noted item ∷ ys) e
unfolding reading noted
emit_items-reading (Item.instr op dst src) xs ys p w k e =
    emit_items-cons (reading (Item.instr op dst src)) (Item.instr op dst src) xs ys
      (λ e'. emit_item-instr op dst src e' w) k e
emit_items-reading (Item.bytes []) xs ys p w k e = cc
emit_items-reading (Item.bytes (b ∷ bs)) xs ys p w k e =
    emit_items-bytes b bs xs e
    ∙ emit_items-cons (Item.bytes (b ∷ bs)) (Item.bytes (b ∷ bs)) xs ys (λ e'. refl) k e
emit_items-reading (Item.directive line) xs ys p w k e = by_line p
  where
    by_line :
        (line ≡ file_directive) ⊎ (line ≡ stack_directive)
        → emit_items (pieces (reading (Item.directive line)) ++ xs) e
          ≡ emit_items (noted (Item.directive line) ∷ ys) e
    by_line (inl q) = rw q (
        emit_items-cons (Item.directive file_directive) (Item.directive file_directive) xs ys
          (λ e'. refl) k e)
    by_line (inr q) = rw q (
        emit_items-cons (noted (Item.directive stack_directive))
          (noted (Item.directive stack_directive)) xs ys (λ e'. refl) k e)
emit_items-reading (Item.label l) xs ys p w k e =
    emit_items-cons (Item.label l) (Item.label l) xs ys (λ e'. refl) k e
emit_items-reading (Item.globl l) xs ys p w k e =
    emit_items-cons (Item.globl l) (Item.globl l) xs ys (λ e'. refl) k e
emit_items-reading (Item.section n t f) xs ys p w k e =
    emit_items-cons (Item.section n t f) (Item.section n t f) xs ys (λ e'. refl) k e

emit_items-readings :
    (items : List Item)
    → All Prints items
    → All IsWhole items
    → (e : Enc) → emit_items (readings items) e ≡ emit_items (map noted items) e
unfolding readings
emit_items-readings [] p w e = refl
emit_items-readings (item ∷ items) p w e =
    emit_items-reading item (readings items) (map noted items) p.0 w.0
      (emit_items-readings items p.1 w.1) e

-- `cc -S` and `as` against `cc -c`: the assembler, on the text that the writer prints for printable items, makes the
-- object that the encoder makes of the items, where the directive for the stack has become an empty section. The items'
-- destinations carry no width of an access, and their runs of bytes are not empty.
pub build_object-write :
    (items : List Item)
    → All Prints items
    → All IsWhole items
    → (parse (write items) >>= build_object) ≡ build_object (map noted items)
unfolding build_object
build_object-write items p w =
    ap (λ z. z >>= build_object) (parse-write items p)
    ∙ ap (λ z. z >>= λ e. build_symbols e >>= λ e'. build_relocs e')
        (emit_items-readings items p w start)
  where
    start : Enc
    start = select_section (text ".text") sht_progbits (bit_or shf_alloc shf_execinstr) reset
