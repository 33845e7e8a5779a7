-- ===== src/Enc/Bytes.antt =====
-- The pieces of an instruction: prefixes, ModRM, displacements and immediates of src/arch/x86_64/enc.c.
-- An enumerator that the source passes as an `int` is its number.
use ivan_cc.Prelude.{
  ℕ, ◌+◌, ◌*◌, ◌/◌, Bool, false, not, ◌&&◌, ◌||◌, List, ◌++◌, ℤ, pos, negsuc, leb_ℤ, ltb, leb, ◌==◌,
  if◌then◌else◌, Option, some, bit_or, bit_and, length, to_word, [], ◌∷◌,
}
use ivan_cc.Prelude.Name.{Name}
use ivan_cc.Asm.Types.{Reg, reg_num, Width, width_8, width_64}
use ivan_cc.Elf.Object.{buf_byte, buf_data, buf_u32, buf_u64}
use ivan_cc.Enc.Types.{Site, rm_rip, sib_base_rsp, r_x86_64_pc32}
use ivan_cc.Enc.Rex
use ivan_cc.Enc.Mod
use ivan_cc.Enc.Opcode

abbrev pub emit8 : ℕ → Site → Site
emit8 byte s = record s { bytes = buf_byte byte s.bytes }

abbrev pub emit32 : ℕ → Site → Site
emit32 val s = record s { bytes = buf_u32 val s.bytes }

abbrev pub emit64 : ℕ → Site → Site
emit64 val s = record s { bytes = buf_u64 val s.bytes }

abbrev pub emit_raw : List ℕ → Site → Site
emit_raw data_ s = record s { bytes = buf_data data_ s.bytes }

abbrev pub record_fixup : Option Name → ℕ → Site → Site
record_fixup name type s = record s {
  fixes = s.fixes ++ record { sec = s.sec; off = length s.bytes; name = name; type = type } ∷ [];
}

-- `reg >> ENC_X86_64_REG_SHIFT`.
abbrev pub reg_high : Reg → ℕ
unfolding reg_num
reg_high reg = reg_num reg / 8

-- `reg & ENC_X86_64_REG_MASK`.
abbrev pub low : ℕ → ℕ
low reg = bit_and reg 7

abbrev pub when : ℕ → ℕ → ℕ
when flag bit = if flag == 0 then 0 else bit

unfoldable pub emit_rex_w : ℕ → ℕ → Site → Site
emit_rex_w rh rmh s =
    emit8 (bit_or (bit_or (bit_or Rex.base Rex.w) (when rh Rex.r)) (when rmh Rex.b)) s

-- The ModRM byte: mod at bit 6, reg at bit 3, r/m at bit 0.
abbrev pub mod_rm : ℕ → ℕ → ℕ → ℕ
mod_rm mod_ reg rm = bit_or (bit_or (mod_ * 64) (low reg * 8)) rm

unfoldable pub emit_mod_rr : ℕ → Reg → Site → Site
emit_mod_rr reg rm s = emit8 (mod_rm Mod.direct reg (low (reg_num rm))) s

abbrev pub is_int8 : ℤ → Bool
is_int8 z = leb_ℤ (negsuc 127) z && leb_ℤ z (pos 127)

abbrev pub is_int32 : ℤ → Bool
is_int32 z = leb_ℤ (negsuc 2147483647) z && leb_ℤ z (pos 2147483647)

abbrev pub is_zero : ℤ → Bool
is_zero (pos n) = n == 0
is_zero (negsuc n) = false

-- The `mod` that Enc_x86_64_EmitMem chooses.
unfoldable pub mem_mod : ℕ → ℤ → ℕ
unfolding reg_num
mem_mod rm disp =
    if is_zero disp && not (rm == low (reg_num Reg.rbp))
    then Mod.indirect
    else if is_int8 disp
    then Mod.disp8
    else Mod.disp32

unfoldable pub emit_mem : ℕ → Reg → ℤ → Site → Site
unfolding mem_mod
emit_mem reg base disp s =
    let rm = low (reg_num base) in
    let m = mem_mod rm disp in
    let s₁ = emit8 (mod_rm m reg rm) s in
    let s₂ = if rm == low (reg_num Reg.rsp) then emit8 sib_base_rsp s₁ else s₁ in
    if m == Mod.disp8
    then emit8 (to_word 8 disp) s₂
    else if m == Mod.disp32
    then emit32 (to_word 32 disp) s₂
    else s₂

unfoldable pub emit_rr : ℕ → Reg → Reg → Site → Site
emit_rr opcode src dst s =
    emit_mod_rr (reg_num src) dst (emit8 opcode (emit_rex_w (reg_high src) (reg_high dst) s))

unfoldable pub emit_grp_imm : ℕ → ℤ → Reg → Site → Site
emit_grp_imm grp imm dst s =
    emit32 (to_word 32 imm)
      (emit_mod_rr grp dst (emit8 Opcode.grp1_rm_imm32 (emit_rex_w 0 (reg_high dst) s)))

unfoldable pub emit_mov_imm : ℤ → Reg → Site → Site
emit_mov_imm imm dst s =
    if is_int32 imm
    then emit32 (to_word 32 imm)
        (emit_mod_rr 0 dst (emit8 Opcode.mov_rm_imm32 (emit_rex_w 0 (reg_high dst) s)))
    else emit64 (to_word 64 imm)
        (emit8 (Opcode.mov_r_imm64 + low (reg_num dst)) (emit_rex_w 0 (reg_high dst) s))

-- The `bits` of Enc_x86_64_EmitRex.
abbrev pub rex_bits : Width → Reg → Reg → ℕ
rex_bits width reg rm =
    bit_or (bit_or (if width == width_64 then Rex.w else 0) (when (reg_high reg) Rex.r))
      (when (reg_high rm) Rex.b)

-- The `lowbyte` of Enc_x86_64_EmitRex.
abbrev pub low_byte : Width → Reg → Bool
low_byte width reg =
    width == width_8 && leb (reg_num Reg.rsp) (reg_num reg) && ltb (reg_num reg) (reg_num Reg.r8)

unfoldable pub emit_rex : Width → Reg → Reg → Site → Site
emit_rex width reg rm s =
    if not (rex_bits width reg rm == 0) || low_byte width reg
    then emit8 (bit_or Rex.base (rex_bits width reg rm)) s
    else s

-- The prefix of Enc_x86_64_EmitMovImm8 and of Enc_x86_64_EmitSetcc.
unfoldable pub emit_rex_8 : Reg → Site → Site
emit_rex_8 reg s =
    if leb (reg_num Reg.r8) (reg_num reg)
    then emit8 (bit_or Rex.base Rex.b) s
    else if leb (reg_num Reg.rsp) (reg_num reg)
    then emit8 Rex.base s
    else s

unfoldable pub emit_mov_imm8 : ℤ → Reg → Site → Site
emit_mov_imm8 imm dst s =
    emit8 (to_word 8 imm) (emit8 (Opcode.mov_r8_imm8 + low (reg_num dst)) (emit_rex_8 dst s))

unfoldable pub emit_mem_form : ℕ → Reg → Reg → ℤ → Width → Site → Site
emit_mem_form opcode reg base disp width s =
    emit_mem (reg_num reg) base disp (emit8 opcode (emit_rex width reg base s))

unfoldable pub emit_lea_rip : Reg → Name → Site → Site
emit_lea_rip dst label s = emit32 0 (
    record_fixup (some label) r_x86_64_pc32 (
      emit8 (mod_rm Mod.indirect (reg_num dst) rm_rip)
        (emit8 Opcode.lea_r_m (emit_rex_w (reg_high dst) 0 s))))

unfoldable pub emit_grp_unary : ℕ → Reg → Site → Site
emit_grp_unary grp reg s =
    emit_mod_rr grp reg (emit8 Opcode.grp3_rm (emit_rex_w 0 (reg_high reg) s))

unfoldable pub emit_setcc : ℕ → Reg → Site → Site
emit_setcc opcode reg s = emit_mod_rr 0 reg (emit8 opcode (emit8 Opcode.escape (emit_rex_8 reg s)))
