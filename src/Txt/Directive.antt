-- ===== src/Txt/Directive.antt =====
-- Txt_x86_64_Att_EmitInts, EmitString and ParseDirective of src/arch/x86_64/txt.c.
use ivan_cc.Prelude.{
  ℕ, ◌==◌, ltb, leb_ℤ, Bool, true, false, not, ◌&&◌, ◌||◌, if◌then◌else◌, List, [], ◌∷◌, ◌++◌,
  length, take, drop, Outcome, ok, err, null_pointer, out_of_bounds, ℤ, pos, negsuc, signed,
  to_word, bit_or,
}
use ivan_cc.Prelude.Name.{Name, text, name_eq}
use ivan_cc.Asm.Types.{Item}
use ivan_cc.Asm.Emit.{emit_section, emit_globl, emit_bytes, emit_directive}
use ivan_cc.Elf.Object.{little, sht_progbits, shf_alloc, shf_execinstr}
use ivan_cc.Elf.Buffer.{zeros}
use ivan_cc.Str.Chars.{is_blank, take_while, drop_while, null, strchr}
use ivan_cc.Str.Split.{split, starts_with}
use ivan_cc.Str.Trim.{trim}
use ivan_cc.Str.Number.{strtol}
use ivan_cc.Str.Unescape.{unescape}

-- ELF_SHF_WRITE and ELF_SHT_NOBITS.
abbrev pub shf_write : ℕ
shf_write = 0x1

abbrev pub sht_nobits : ℕ
sht_nobits = 8

-- `val >> (8 * b) & 0xFF` for the bytes of a `long`.
unfoldable pub emit_int : ℕ → Name → List Item → List Item
emit_int width part items =
    if null (trim part)
    then items
    else emit_bytes (little width (to_word 64 (strtol (trim part)))) items

unfoldable pub emit_int_parts : ℕ → List Name → List Item → List Item
unfolding emit_int
emit_int_parts width [] items = items
emit_int_parts width (part ∷ parts) items = emit_int_parts width parts (emit_int width part items)

unfoldable pub emit_ints : Name → ℕ → List Item → List Item
unfolding emit_int_parts
emit_ints args width items = emit_int_parts width (split args (text ",")) items

abbrev quoted : Bool → Name → List Item → List Item
quoted terminate [] items = items
quoted terminate (quote ∷ body) items =
    emit_bytes (unescape body ++ (if terminate then 0 ∷ [] else [])) items

unfoldable pub emit_string : Name → Bool → List Item → List Item
emit_string args terminate items = quoted terminate (strchr b'"' args) items

abbrev flag_bit : ℕ → ℕ
flag_bit c =
    if c == b'a'
    then shf_alloc
    else if c == b'w'
    then shf_write
    else if c == b'x'
    then shf_execinstr
    else 0

-- The letters up to the closing quote.
unfoldable pub quoted_flags : ℕ → Name → ℕ
quoted_flags flags [] = flags
quoted_flags flags (c ∷ cs) =
    let more = quoted_flags (bit_or flags (flag_bit c)) cs in if c == b'"' then flags else more

abbrev text_flags : ℕ
text_flags = bit_or shf_alloc shf_execinstr

abbrev data_flags : ℕ
data_flags = bit_or shf_alloc shf_write

unfoldable pub named_flags : Name → ℕ
named_flags name =
    if name_eq name (text ".text")
    then text_flags
    else if name_eq name (text ".data")
    then data_flags
    else shf_alloc

abbrev is_nobits : Name → Bool
is_nobits [] = false
is_nobits (at ∷ kind) = starts_with kind (text "nobits")

-- The type and the flags of `.section`, by what is behind the first quote.
abbrev pub section_type : Name → Name → ℕ
section_type args [] = sht_progbits
section_type args (quote ∷ body) = if is_nobits (strchr b'@' args) then sht_nobits else sht_progbits

abbrev pub section_flags : Name → Name → ℕ
section_flags name [] = named_flags name
section_flags name (quote ∷ body) = quoted_flags 0 body

-- `strcspn(args, " ,\t")` characters.
abbrev pub first_word : Name → Name
first_word args = take_while (λ c. not (is_blank c || c == b',')) args

unfoldable pub parse_section : Name → List Item → List Item
unfolding quoted_flags named_flags
parse_section args items =
    let name = first_word args in
    let quote = strchr b'"' args in
    emit_section name (section_type args quote) (section_flags name quote) items

-- `.skip`: the count is cut to an int. A negative one asks malloc for more than there is, and memcpy writes to NULL; one
-- that is cut from a negative long reads behind the one byte that calloc gave.
unfoldable pub emit_skip : ℤ → ℤ → List Item → Outcome (List Item)
emit_skip count (negsuc n) items = err null_pointer
emit_skip count (pos n) items =
    if leb_ℤ count (pos 0) && ltb 1 n then err out_of_bounds else ok (emit_bytes (zeros n) items)

abbrev is : Name → Name → Bool
is name other = name_eq name other

abbrev is_skip : Name → Bool
is_skip name = is name (text ".skip") || is name (text ".zero") || is name (text ".space")

abbrev is_word_directive : Name → Bool
is_word_directive name =
    is name (text ".word") || is name (text ".short") || is name (text ".value")

-- The directives with data, and the rest of the chain.
unfoldable pub parse_data : Name → Name → Name → List Item → Outcome (List Item)
unfolding emit_ints emit_string emit_skip
parse_data name args line items =
    if is name (text ".byte")
    then ok (emit_ints args 1 items)
    else if is_word_directive name
    then ok (emit_ints args 2 items)
    else if is name (text ".long") || is name (text ".int")
    then ok (emit_ints args 4 items)
    else if is name (text ".quad")
    then ok (emit_ints args 8 items)
    else if is name (text ".string") || is name (text ".asciz")
    then ok (emit_string args true items)
    else if is name (text ".ascii")
    then ok (emit_string args false items)
    else if is_skip name
    then emit_skip (strtol args) (signed 32 (to_word 32 (strtol args))) items
    else ok (emit_directive line items)

-- `nlen`: at most 31 characters of the name are looked at.
abbrev directive_name : Name → Name
directive_name line = take 31 (take_while (λ c. not (is_blank c)) line)

-- The chain of tests on the name.
unfoldable pub run_directive : Name → Name → Name → List Item → Outcome (List Item)
unfolding parse_section parse_data
run_directive name args line items =
    if is name (text ".text")
    then ok (emit_section (text ".text") sht_progbits text_flags items)
    else if is name (text ".data")
    then ok (emit_section (text ".data") sht_progbits data_flags items)
    else if is name (text ".rodata")
    then ok (emit_section (text ".rodata") sht_progbits shf_alloc items)
    else if is name (text ".section")
    then ok (parse_section args items)
    else if is name (text ".globl") || is name (text ".global")
    then ok (emit_globl (first_word args) items)
    else parse_data name args line items

unfoldable pub parse_directive : Name → List Item → Outcome (List Item)
unfolding run_directive
parse_directive line items =
    run_directive (directive_name line)
      (drop_while is_blank (drop (length (directive_name line)) line)) line items
