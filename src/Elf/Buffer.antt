-- ===== src/Elf/Buffer.antt =====
-- Padding of a buffer: Elf_BufZero, Elf_BufAlign and Elf_PlaceOffset of src/util/elf.c.
use native.Mathlib.Nat.{mul-suc, mod-lt, mod-one, div-add-mod, mul-mod_right}
use ivan_cc.Prelude.{
  ℕ, zero, suc, ◌+◌, ◌-◌, ◌*◌, ◌/◌, ◌%◌, ◌^◌, ◌≤◌, ◌<◌, false, inl, inr, Bool-cases, ==_iff, List,
  [], ◌∷◌, ◌++◌, ◌≡◌, ◌≢◌, refl, sym, ◌∙◌, ap, length, length-append, append_assoc, append-nil,
  ◌==◌, ltb, if◌then◌else◌, arith, to_word, pos, ◌-ℤ◌,
}
use ivan_cc.Elf.Object.{Buf, buf_byte}

-- `n` bytes that are zero.
abbrev pub zeros : ℕ → List ℕ
zeros zero = []
zeros (suc n) = 0 ∷ zeros n

abbrev pub buf_zero : ℕ → Buf → Buf
buf_zero n buf = buf ++ zeros n

-- The loop of Elf_BufAlign, on fuel.
unfoldable pub pad_fuel : ℕ → ℕ → Buf → Buf
pad_fuel zero align buf = buf
pad_fuel (suc f) align buf =
    let rest = pad_fuel f align (buf_byte 0 buf) in if length buf % align == 0 then buf else rest

unfoldable pub buf_align : ℕ → Buf → Buf
unfolding pad_fuel
buf_align align buf = if ltb 1 align then pad_fuel (suc align) align buf else buf

-- ELF_PAGE.
abbrev pub page : ℕ
page = 0x1000

-- `vaddr - pos` is a difference of `uint64_t`.
unfoldable pub place_offset : ℕ → ℕ → ℕ
place_offset at vaddr = (at + to_word 64 (pos vaddr -ℤ pos at) % page) % 2 ^ 64

-- The buffer with at most `d` zeros behind it, so that its length is a multiple.
pub record Padded (align d : ℕ) (old new : Buf) : Type 0 where
  pub count : ℕ
  pub few : count ≤ d
  pub bytes : new ≡ old ++ zeros count
  pub multiple : length new % align ≡ 0

-- One more zero in front.
Padded-more :
    (align d : ℕ) (buf new : Buf)
    → Padded align d (buf_byte 0 buf) new
    → Padded align (suc d) buf new
Padded-more align d buf new p = record {
  count = suc p.count;
  few = omega (arith, p.few);
  bytes = p.bytes ∙ append_assoc buf (0 ∷ []) (zeros p.count);
  multiple = p.multiple;
}

-- Where the length is no multiple, a zero is missing.
missing :
    (align d : ℕ) (buf : Buf)
    → (length buf % align == 0) ≡ false
    → (length buf + d) % align ≡ 0
    → (e : ℕ) × (d ≡ suc e) × ((length (buf_byte 0 buf) + e) % align ≡ 0)
missing align zero buf e h = absurd (differ (same ∙ h))
  where
    same : length buf % align ≡ (length buf + 0) % align
    same = let q : length buf ≡ length buf + 0 = omega arith in ap (λ n. n % align) q

    differ : length buf % align ≢ 0
    differ q = cc (e, (==_iff (length buf % align) 0).1 q)
missing align (suc d) buf e h = (d, refl, ap (λ n. n % align) longer ∙ h)
  where
    longer : length (buf ++ 0 ∷ []) + d ≡ length buf + suc d
    longer = omega (arith, length-append buf (0 ∷ []))

pad_fuel-Padded :
    (d f align : ℕ) (buf : Buf)
    → d < f
    → (length buf + d) % align ≡ 0
    → Padded align d buf (pad_fuel f align buf)
unfolding pad_fuel
pad_fuel-Padded d zero align buf l h = absurd (omega arith)
pad_fuel-Padded d (suc f) align buf l h = elim (Bool-cases (length buf % align == 0)) [
  | inl e ↦ rw e (record {
    count = 0;
    few = omega arith;
    bytes = sym (append-nil buf);
    multiple = (==_iff (length buf % align) 0).0 e;
  })
  | inr e ↦
      let (d', is_suc, h') = missing align d buf e h in
      let rest = pad_fuel-Padded d' f align (buf_byte 0 buf) (omega arith) h' in
      rw (e, is_suc) (Padded-more align d' buf _ rest)
]

Padded-le :
    (align d d' : ℕ) (buf new : Buf) → d ≤ d' → Padded align d buf new → Padded align d' buf new
Padded-le align d d' buf new l p = record {
  count = p.count;
  few = omega (arith, p.few);
  bytes = p.bytes;
  multiple = p.multiple;
}

-- The room up to the next multiple.
room : (align n : ℕ) → 0 < align → (n + (align - n % align)) % align ≡ 0
room align n l = ap (λ k. k % align) whole ∙ mul-mod_right align (suc (n / align))
  where
    whole : n + (align - n % align) ≡ align * suc (n / align)
    whole =
        let below = mod-lt n l in
        omega (arith, div-add-mod n align, mul-suc align (n / align), below)

-- Elf_BufAlign, for an alignment above 0, appends at most `align` zeros and nothing else, after which the length is a
-- multiple of `align`; the fuel is enough.
pub buf_align-Padded :
    (align : ℕ) (buf : Buf) → 0 < align → Padded align align buf (buf_align align buf)
unfolding buf_align
buf_align-Padded align buf l = elim (Bool-cases (ltb 1 align)) [
  | inl e ↦ rw e (
      Padded-le align (align - length buf % align) align buf _ (omega arith) (
        pad_fuel-Padded (align - length buf % align) (suc align) align buf (omega arith)
          (room align (length buf) l)))
  | inr e ↦ rw e (record {
    count = 0;
    few = omega arith;
    bytes = sym (append-nil buf);
    multiple = one align l e;
  })
]
  where
    one : (align : ℕ) → 0 < align → ltb 1 align ≡ false → length buf % align ≡ 0
    one align l e =
        let q : align ≡ 1 = ground arith in ap (λ a. length buf % a) q ∙ mod-one (length buf)

-- Padding, to any alignment, puts zeros behind.
pad_fuel-zeros : (f align : ℕ) (buf : Buf) → (n : ℕ) × (pad_fuel f align buf ≡ buf ++ zeros n)
unfolding pad_fuel
pad_fuel-zeros zero align buf = (0, sym (append-nil buf))
pad_fuel-zeros (suc f) align buf = elim (Bool-cases (length buf % align == 0)) [
  | inl e ↦ (0, rw e (sym (append-nil buf)))
  | inr e ↦
      let (n, rest) = pad_fuel-zeros f align (buf_byte 0 buf) in
      (suc n, rw e (rest ∙ append_assoc buf (0 ∷ []) (zeros n)))
]

pub buf_align-zeros : (align : ℕ) (buf : Buf) → (n : ℕ) × (buf_align align buf ≡ buf ++ zeros n)
unfolding buf_align
buf_align-zeros align buf = elim (Bool-cases (ltb 1 align)) [
  | inl e ↦ let (n, rest) = pad_fuel-zeros (suc align) align buf in (n, rw e rest)
  | inr e ↦ (0, rw e (sym (append-nil buf)))
]

pub buf_align_le : (align : ℕ) (buf : Buf) → length buf ≤ length (buf_align align buf)
buf_align_le align buf =
    let (n, e) = buf_align-zeros align buf in
    omega (arith, ap (λ bs. length bs) e, length-append buf (zeros n))
