-- ===== src/Elf/Laid.antt =====
-- Where Elf_WriteRel puts the sections of a relocatable object.
use mathlib.Core.Path.{subst}
use mathlib.Core.Option.{some-injective}
use ivan_cc.Prelude.{
  ℕ, zero, suc, ◌+◌, ◌-◌, ◌*◌, ◌/◌, ◌%◌, ◌^◌, ◌≤◌, ◌<◌, List, [], ◌∷◌, ◌++◌, ◌≡◌, refl, sym, ap,
  ◌∙◌, some, get_elem?, length, length-append, append_assoc, append-nil, arith, ◌-ℤ◌,
}
use ivan_cc.Elf.Object.{Buf}
use ivan_cc.Elf.Symtab.{write_str, str_offset}
use ivan_cc.Elf.Buffer.{zeros}
use ivan_cc.Elf.Loads.{LiesAt, LiesAt-before, length-zeros}
use ivan_cc.Elf.Relocatable.{
  Part, alignment, align_up, header_of, headers, part_bodies, table_bytes, shdr_bytes, shdr_size,
  add_names,
}

LiesAt-first : (xs ys : List ℕ) → LiesAt (xs ++ ys) 0 xs
LiesAt-first xs ys = ([], ys, refl, refl)

pub LiesAt-behind :
    (xs file : List ℕ) (off : ℕ) (bs : List ℕ)
    → LiesAt file off bs
    → LiesAt (xs ++ file) (length xs + off) bs
LiesAt-behind xs file off bs (before, after, e, l) = (
  xs ++ before,
  after,
  ap (λ z. xs ++ z) e ∙ sym (append_assoc xs before (bs ++ after)),
  length-append xs before ∙ ap (λ n. length xs + n) l,
)

pub LiesAt-moved :
    (file : List ℕ) (off off' : ℕ) (bs : List ℕ)
    → off ≡ off'
    → LiesAt file off bs
    → LiesAt file off' bs
LiesAt-moved file off off' bs e lies = subst (λ n. LiesAt file n bs) e lies

-- What lies within something that lies in the file.
pub LiesAt-within :
    (file : List ℕ) (off : ℕ) (mid : List ℕ) (at : ℕ) (bs : List ℕ)
    → LiesAt file off mid
    → LiesAt mid at bs
    → LiesAt file (off + at) bs
LiesAt-within file off mid at bs (before, after, e, l) inner =
    subst (λ f. LiesAt f (off + at) bs) (sym e)
      (subst (λ n. LiesAt (before ++ (mid ++ after)) (n + at) bs) l
        (LiesAt-behind before (mid ++ after) at bs (LiesAt-before mid after at bs inner)))

-- The room that the parts take in the file, each up to its alignment more than its bytes.
abbrev pub room : List Part → ℕ
room [] = 0
room (part ∷ parts) = length part.body + alignment part.addralign + room parts

-- Where the rounding of an offset ends.
pub record NextMultiple (at align off : ℕ) : Type 0 where
  pub behind : at ≤ off
  pub near : off < at + alignment align
  pub multiple : (k : ℕ) × (off ≡ k * alignment align)

alignment-positive : (n : ℕ) → 0 < alignment n
alignment-positive n = ground arith

pub align_up-NextMultiple :
    (align at : ℕ) → at + alignment align < 2 ^ 64 → NextMultiple at align (align_up align at)
unfolding align_up ◌-ℤ◌
align_up-NextMultiple align at l =
    let p = alignment-positive align in
    record {
      behind = omega arith;
      near = omega arith;
      multiple = ((at + alignment align - 1) % 2 ^ 64 / alignment align, refl);
    }

-- The header of a part, in the table, and its body, in the bodies from the file position `at` on.
pub record Stored (shstr : Buf) (at shoff : ℕ) (parts : List Part) (i : ℕ) (part : Part)
    : Type 0 where
  pub name : ℕ
  pub off : ℕ
  pub ahead : ℕ
  pub short : name < 2 ^ 32
  pub listed :
      LiesAt
        (table_bytes (headers shstr at parts))
        (i * shdr_size)
        (shdr_bytes (header_of part name off))
  pub multiple : (k : ℕ) × (off ≡ k * alignment part.addralign)
  pub body : LiesAt (part_bodies shoff at parts (headers shstr at parts)) ahead part.body
  pub place : at + ahead ≡ off
  pub fits : off + length part.body ≤ at + room parts
  pub named : LiesAt (add_names parts shstr) name (part.name ++ 0 ∷ [])

write_str-LiesAt :
    (parts : List Part) (shstr : Buf) (at : ℕ) (bs : List ℕ)
    → LiesAt shstr at bs
    → LiesAt (add_names parts shstr) at bs
unfolding add_names
write_str-LiesAt [] shstr at bs lies = lies
write_str-LiesAt (part ∷ parts) shstr at bs lies =
    write_str-LiesAt parts (write_str part.name shstr) at bs
      (LiesAt-before shstr (part.name ++ 0 ∷ []) at bs lies)

length-add_names : (parts : List Part) (shstr : Buf) → length shstr ≤ length (add_names parts shstr)
unfolding add_names
length-add_names [] shstr = omega arith
length-add_names (part ∷ parts) shstr = omega (
  arith,
  length-add_names parts (write_str part.name shstr),
  length-append shstr (part.name ++ 0 ∷ []),
)

string-LiesAt :
    (shstr : Buf) (name : List ℕ)
    → length shstr < 2 ^ 32
    → LiesAt (write_str name shstr) (str_offset shstr) (name ++ 0 ∷ [])
string-LiesAt shstr name l =
    LiesAt-moved _ (length shstr) (str_offset shstr) _ (omega arith)
      (shstr, [], ap (λ z. shstr ++ z) (sym (append-nil (name ++ 0 ∷ []))), refl)

pub parts-Stored :
    (shoff : ℕ) (shstr : Buf) (at : ℕ) (parts : List Part) (i : ℕ) (part : Part)
    → at + room parts < 2 ^ 64
    → length (add_names parts shstr) < 2 ^ 32
    → get_elem? parts i ≡ some part
    → Stored shstr at shoff parts i part
unfolding headers part_bodies table_bytes add_names
parts-Stored shoff shstr at [] i part l m e = cc
parts-Stored shoff shstr at (p ∷ parts) zero part l m e =
    let off = align_up p.addralign at in
    let next = align_up-NextMultiple p.addralign at (omega arith) in
    subst (λ z. Stored shstr at shoff (p ∷ parts) zero z) (some-injective _ _ e)
      (record {
        name = str_offset shstr;
        off = off;
        ahead = off - at;
        short = omega arith;
        listed =
            LiesAt-first (shdr_bytes (header_of p (str_offset shstr) off)) (
              table_bytes
                (headers (write_str p.name shstr) ((off + length p.body) % 2 ^ 64) parts));
        multiple = next.multiple;
        body =
            subst
              (λ n.
                LiesAt (part_bodies shoff at (p ∷ parts) (headers shstr at (p ∷ parts))) n p.body)
              (length-zeros (off - at)) (zeros (off - at), _, refl, refl);
        place = omega (arith, next.behind);
        fits = omega (arith, next.near);
        named =
            write_str-LiesAt parts (write_str p.name shstr) (str_offset shstr) (p.name ++ 0 ∷ []) (
              string-LiesAt shstr p.name (
                omega (
                  arith,
                  m,
                  length-add_names parts (write_str p.name shstr),
                  length-append shstr (p.name ++ 0 ∷ []),
                )));
      })
parts-Stored shoff shstr at (p ∷ parts) (suc i) part l m e =
    let off = align_up p.addralign at in
    let next = align_up-NextMultiple p.addralign at (omega arith) in
    let at' = (off + length p.body) % 2 ^ 64 in
    let same : at + (off - at) + length p.body ≡ at' = omega (arith, next.behind, next.near) in
    let rest =
      parts-Stored shoff (write_str p.name shstr) at' parts i part (omega (arith, next.near)) m e in
    record {
      name = rest.name;
      off = rest.off;
      short = rest.short;
      ahead = (off - at) + (length p.body + rest.ahead);
      listed =
          LiesAt-moved _ (shdr_size + i * shdr_size) (suc i * shdr_size)
            (shdr_bytes (header_of part rest.name rest.off)) (omega arith)
            (LiesAt-behind (shdr_bytes (header_of p (str_offset shstr) off))
              (table_bytes (headers (write_str p.name shstr) at' parts)) (i * shdr_size)
              (shdr_bytes (header_of part rest.name rest.off)) rest.listed);
      multiple = rest.multiple;
      body =
          LiesAt-moved _ (length (zeros (off - at)) + (length p.body + rest.ahead)) _ part.body
            (ap (λ n. n + (length p.body + rest.ahead)) (length-zeros (off - at)))
            (LiesAt-behind (zeros (off - at))
              (p.body
                ++ part_bodies shoff (at + (off - at) + length p.body) parts
                    (headers (write_str p.name shstr) at' parts))
              (length p.body + rest.ahead) part.body
              (LiesAt-behind p.body
                (part_bodies shoff (at + (off - at) + length p.body) parts
                  (headers (write_str p.name shstr) at' parts))
                rest.ahead part.body
                (subst
                  (λ n.
                    LiesAt (part_bodies shoff n parts (headers (write_str p.name shstr) at' parts))
                      rest.ahead part.body)
                  (sym same) rest.body)));
      place = omega (arith, rest.place, next.behind, next.near);
      fits = omega (arith, rest.fits, next.near);
      named = rest.named;
    }
