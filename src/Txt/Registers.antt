-- ===== src/Txt/Registers.antt =====
-- The branches of the parser of operands, and the names of registers.
use ivan_cc.Prelude.{ℕ, true, ◌∷◌, ◌≡◌, refl, ap, ◌∙◌, none, some}
use ivan_cc.Prelude.Name.{Name}
use ivan_cc.Asm.Types.{Reg, Width, width_8, width_32, width_64, Operand}
use ivan_cc.Asm.Emit.{reg_width, imm, rip, target}
use ivan_cc.Str.Chars.{is_alpha, is_alnum, all, all-cons, all-weaken}
use ivan_cc.Str.Number.{strtol}
use ivan_cc.Txt.Names.{reg64_name, reg8_name, reg32_name, reg_by_name}
use ivan_cc.Txt.Pattern.{
  is_register, match_register, match_immediate, match_rip, match_memory, match_target,
}
use ivan_cc.Txt.Operand.{parse_operand, register_operand, memory_operand, disp_of}
use ivan_cc.Txt.Scan.{is_ink, word-ink, alnum-word}

-- The tables and the searches in them are inverse, and the names are those that the patterns look for.
pub record Named (r : Reg) (w : Width) (name : Name) : Type 0 where
  pub matched : is_register name ≡ true
  pub found : reg_by_name name ≡ some (r, w)
  pub word : all is_alnum name ≡ true

pub named64 : (r : Reg) → Named r width_64 (reg64_name r)
unfolding reg64_name is_register reg_by_name is_alpha is_alnum
named64 Reg.rax = record { matched = refl; found = refl; word = refl }
named64 _ = record { matched = refl; found = refl; word = refl }

pub named32 : (r : Reg) → Named r width_32 (reg32_name r)
unfolding reg32_name is_register reg_by_name is_alpha is_alnum
named32 Reg.rax = record { matched = refl; found = refl; word = refl }
named32 _ = record { matched = refl; found = refl; word = refl }

pub named8 : (r : Reg) → Named r width_8 (reg8_name r)
unfolding reg8_name is_register reg_by_name is_alpha is_alnum
named8 Reg.rax = record { matched = refl; found = refl; word = refl }
named8 _ = record { matched = refl; found = refl; word = refl }

-- The parser reads `o` from the text `t`, which has only characters of operands.
pub record Reads (t : Name) (o : Operand) : Type 0 where
  pub first : ℕ
  pub rest : Name
  pub is : t ≡ first ∷ rest
  pub ink : all is_ink t ≡ true
  pub parsed : parse_operand t ≡ some o

pub alnum-ink : (c : ℕ) → is_alnum c ≡ true → is_ink c ≡ true
alnum-ink c h = word-ink c (alnum-word c h)

-- The branches of the parser.
module _ (t : Name) where
  parse-register :
      (n : Name) → match_register t ≡ some n → parse_operand t ≡ register_operand (reg_by_name n)
  unfolding parse_operand
  parse-register n h = rw (h, parse_operand) refl

  pub parse-immediate :
      (v : Name)
      → match_register t ≡ none
      → match_immediate t ≡ some v
      → parse_operand t ≡ some (imm (strtol v))
  unfolding parse_operand
  parse-immediate v h i = rw (h, i, parse_operand) refl

  pub parse-rip :
      (l : Name)
      → match_register t ≡ none
      → match_immediate t ≡ none
      → match_rip t ≡ some l
      → parse_operand t ≡ some (rip l)
  unfolding parse_operand
  parse-rip l h i r = rw (h, i, r, parse_operand) refl

  pub parse-memory :
      (d b : Name)
      → match_register t ≡ none
      → match_immediate t ≡ none
      → match_rip t ≡ none
      → match_memory t ≡ some (d, b)
      → parse_operand t ≡ memory_operand (disp_of d) (reg_by_name b)
  unfolding parse_operand
  parse-memory d b h i r m = rw (h, i, r, m, parse_operand) refl

  pub parse-target :
      match_register t ≡ none
      → match_immediate t ≡ none
      → match_rip t ≡ none
      → match_memory t ≡ none
      → match_target t ≡ true
      → parse_operand t ≡ some (target t)
  unfolding parse_operand
  parse-target h i r m w = rw (h, i, r, m, w, parse_operand) refl

pub register-Reads :
    (r : Reg) (w : Width) (name : Name) → Named r w name → Reads (b'%' ∷ name) (reg_width r w)
register-Reads r w name n = record {
  first = b'%';
  rest = name;
  is = refl;
  ink =
      all-cons is_ink b'%' name (unfold is_ink in refl)
        (all-weaken is_alnum is_ink name alnum-ink n.word);
  parsed = parsed;
}
  where
    parsed : parse_operand (b'%' ∷ name) ≡ some (reg_width r w)
    parsed =
        parse-register (b'%' ∷ name) name (unfold match_register in rw n.matched refl)
        ∙ ap register_operand n.found
