-- ===== src/Rel/Target.antt =====
-- Where a patched branch leads.
use ivan_cc.Prelude.{
  ℕ, ◌+◌, ◌%◌, ◌^◌, ◌≤◌, ◌<◌, List, ◌≡◌, refl, ◌∙◌, ap, true, ◌||◌, pos, negsuc, ◌+ℤ◌, ◌-ℤ◌,
  to_word, signed, Fits, ◌⊎◌, inl, inr, ok, get_elem?, set, length, arith, ◌==◌,
}
use ivan_cc.Elf.Object.{Elf, Sec, Sym, Rela, section_at}
use ivan_cc.Rel.Apply.{r_x86_64_pc32, r_x86_64_plt32, rel_one, patch_by, symbol_at, symbol_addr}
use ivan_cc.Rel.Field.{read_le, low_bytes_four, patch_le-Patched}

-- The address behind the field, and the displacement in the field.
displaced :
    (S P : ℕ)
    → Fits 32 (pos S -ℤ pos (P + 4))
    → pos (P + 4) +ℤ signed 32 (to_word 64 (pos S +ℤ negsuc 3 -ℤ pos P) % 2 ^ 32 % 2 ^ 32) ≡ pos S
unfolding ◌+ℤ◌ ◌-ℤ◌
displaced S P h = ground arith

-- An object in which one section has other bytes.
abbrev pub with_bytes : ℕ → Sec → List ℕ → Elf → Elf
with_bytes k sec bytes elf = record elf { secs = set elf.secs k (record sec { bytes = bytes }) }

-- `new` is `old` with a 32-bit field at `offset`, at the address P, that leads from its end to S.
pub record LeadsTo (S P offset : ℕ) (old new : List ℕ) : Type 0 where
  pub target : pos (P + 4) +ℤ signed 32 (read_le 4 offset new) ≡ pos S
  pub same_length : length new ≡ length old
  pub outside : (j : ℕ) → (j < offset) ⊎ (offset + 4 ≤ j) → get_elem? new j ≡ get_elem? old j

-- A relocation R_X86_64_PC32 or R_X86_64_PLT32 with the addend -4, in bounds of its section and within 32 bits of its
-- symbol: Rel_x86_64_One returns, changes the four bytes of the field and no other, and the field's displacement,
-- counted from the field's end, leads to the symbol's address.
pub rel_one-LeadsTo :
    (k : ℕ) (rel : Rela) (elf : Elf) (sec : Sec) (symbol : Sym) (S : ℕ)
    → section_at elf.secs k ≡ ok sec
    → symbol_at elf.syms rel.sym ≡ ok symbol
    → symbol_addr elf.secs symbol ≡ ok S
    → (rel.type ≡ r_x86_64_pc32) ⊎ (rel.type ≡ r_x86_64_plt32)
    → rel.addend ≡ negsuc 3
    → rel.offset + 4 ≤ length sec.bytes
    → Fits 32 (pos S -ℤ pos ((sec.addr + rel.offset) % 2 ^ 64 + 4))
    → (new : List ℕ) × (rel_one k rel elf ≡ ok (with_bytes k sec new elf))
      × LeadsTo S ((sec.addr + rel.offset) % 2 ^ 64) rel.offset sec.bytes new
unfolding rel_one patch_by
rel_one-LeadsTo k rel elf sec symbol S at_sec at_sym at_addr type addend inside near =
    let P = (sec.addr + rel.offset) % 2 ^ 64 in
    let field = to_word 64 (pos S +ℤ negsuc 3 -ℤ pos P) % 2 ^ 32 in
    let patched = patch_le-Patched rel.offset field 4 sec.bytes inside in
    let target =
      ap (λ v. pos (P + 4) +ℤ signed 32 v) (patched.2.reads ∙ low_bytes_four field)
      ∙ displaced S P near in
    (
      patched.0,
      rw (at_sec, at_sym, at_addr, addend, by_type rel.type type, patched.1) refl,
      record { target = target; same_length = patched.2.same_length; outside = patched.2.outside },
    )
  where
    by_type :
        (t : ℕ)
        → (t ≡ r_x86_64_pc32) ⊎ (t ≡ r_x86_64_plt32)
        → (t == r_x86_64_pc32 || t == r_x86_64_plt32) ≡ true
    by_type t (inl e) = rw e refl
    by_type t (inr e) = rw e refl
