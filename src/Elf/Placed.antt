-- ===== src/Elf/Placed.antt =====
-- What lies where in the file of a relocatable object.
use mathlib.Core.Path.{subst}
use ivan_cc.Prelude.{
  ℕ, suc, ◌+◌, ◌-◌, ◌*◌, ◌%◌, ◌^◌, ◌≤◌, ◌<◌, List, [], ◌∷◌, ◌++◌, ◌≡◌, refl, sym, ap, some,
  get_elem?, length, length-append, arith,
}
use ivan_cc.Elf.Object.{Elf, Buf}
use ivan_cc.Elf.Buffer.{zeros}
use ivan_cc.Elf.Symtab.{write_str}
use ivan_cc.Elf.Exec.{ehdr_bytes, ehdr_size}
use ivan_cc.Elf.Loads.{LiesAt, LiesAt-before, length-zeros}
use ivan_cc.Elf.Laid.{
  LiesAt-behind, LiesAt-within, LiesAt-moved, parts-Stored, room, align_up-NextMultiple,
}
use ivan_cc.Elf.Relocatable.{
  Part, alignment, align_up, header_of, headers, end_of_bodies, part_bodies, table_bytes,
  shdr_bytes, shdr_size, add_names, shoff_of, rel_ehdr, write_parts, write_rel, all_parts,
  named_parts, shstr_part,
}

pub end_of_bodies-room :
    (at : ℕ) (parts : List Part)
    → at + room parts < 2 ^ 64
    → end_of_bodies at parts ≤ at + room parts
unfolding end_of_bodies
end_of_bodies-room at [] l = omega arith
end_of_bodies-room at (p ∷ parts) l =
    let next = align_up-NextMultiple p.addralign at (omega arith) in
    omega (
      arith,
      end_of_bodies-room ((align_up p.addralign at + length p.body) % 2 ^ 64) parts
          (omega (arith, next.near)),
      next.near,
    )

at-end_of_bodies :
    (at : ℕ) (parts : List Part) → at + room parts < 2 ^ 64 → at ≤ end_of_bodies at parts
unfolding end_of_bodies
at-end_of_bodies at [] l = omega arith
at-end_of_bodies at (p ∷ parts) l =
    let next = align_up-NextMultiple p.addralign at (omega arith) in
    omega (
      arith,
      at-end_of_bodies ((align_up p.addralign at + length p.body) % 2 ^ 64) parts
          (omega (arith, next.near)),
      next.near,
      next.behind,
    )

length-part_bodies :
    (shoff : ℕ) (shstr : Buf) (at : ℕ) (parts : List Part)
    → at + room parts < 2 ^ 64
    → end_of_bodies at parts ≤ shoff
    → at + length (part_bodies shoff at parts (headers shstr at parts)) ≡ shoff
unfolding headers part_bodies end_of_bodies
length-part_bodies shoff shstr at [] l m = omega (arith, length-zeros (shoff - at))
length-part_bodies shoff shstr at (p ∷ parts) l m =
    let off = align_up p.addralign at in
    let next = align_up-NextMultiple p.addralign at (omega arith) in
    let at' = (off + length p.body) % 2 ^ 64 in
    let same : at + (off - at) + length p.body ≡ at' = omega (arith, next.behind, next.near) in
    let hs = headers (write_str p.name shstr) at' parts in
    let rest =
      length-part_bodies shoff (write_str p.name shstr) at' parts (omega (arith, next.near)) m in
    omega (
      arith,
      rest,
      same,
      length-zeros (off - at),
      next.behind,
      length-append (zeros (off - at))
          (p.body ++ part_bodies shoff (at + (off - at) + length p.body) parts hs),
      length-append p.body (part_bodies shoff (at + (off - at) + length p.body) parts hs),
      ap (λ n. length (part_bodies shoff n parts hs)) same,
    )

-- The header of a part behind the zero one, its body and its name.
record PlacedIn (parts : List Part) (i : ℕ) (part : Part) (file : List ℕ) : Type 0 where
  pub name : ℕ
  pub off : ℕ
  pub short : name < 2 ^ 32
  pub header :
      LiesAt file (shoff_of parts + suc i * shdr_size) (shdr_bytes (header_of part name off))
  pub multiple : (k : ℕ) × (off ≡ k * alignment part.addralign)
  pub body : LiesAt file off part.body
  pub fits : off + length part.body ≤ ehdr_size + room parts
  pub named : LiesAt (add_names parts (0 ∷ [])) name (part.name ++ 0 ∷ [])

write_parts-PlacedIn :
    (elf : Elf) (parts : List Part) (i : ℕ) (part : Part)
    → ehdr_size + room parts + 7 < 2 ^ 64
    → length (add_names parts (0 ∷ [])) < 2 ^ 32
    → get_elem? parts i ≡ some part
    → PlacedIn parts i part (write_parts elf parts)
unfolding write_parts
write_parts-PlacedIn elf parts i part l m e =
    let shoff = shoff_of parts in
    let hs = headers (0 ∷ []) ehdr_size parts in
    let s = parts-Stored shoff (0 ∷ []) ehdr_size parts i part (omega arith) m e in
    let ends = end_of_bodies-room ehdr_size parts (omega arith) in
    let begins = at-end_of_bodies ehdr_size parts (omega arith) in
    let whole =
      length-part_bodies shoff (0 ∷ []) ehdr_size parts (omega arith) (omega (arith, ends)) in
    let bodies = part_bodies shoff ehdr_size parts hs in
    let rest = zeros shdr_size ++ table_bytes hs in
    let entry = shdr_bytes (header_of part s.name s.off) in
    record {
      name = s.name;
      off = s.off;
      short = s.short;
      header =
          LiesAt-moved _ (ehdr_size + (length bodies + (shdr_size + i * shdr_size))) _ entry
            (omega (arith, whole))
            (LiesAt-behind (ehdr_bytes (rel_ehdr elf parts)) (bodies ++ rest) _ entry (
              LiesAt-behind bodies rest _ entry
                (LiesAt-behind (zeros shdr_size) (table_bytes hs) _ entry s.listed)));
      multiple = s.multiple;
      body = LiesAt-moved _ (ehdr_size + s.ahead) _ part.body s.place (
          LiesAt-behind (ehdr_bytes (rel_ehdr elf parts)) (bodies ++ rest) s.ahead part.body
            (LiesAt-before bodies rest s.ahead part.body s.body));
      fits = s.fits;
      named = s.named;
    }

add_names-append :
    (ps qs : List Part) (shstr : Buf)
    → add_names (ps ++ qs) shstr ≡ add_names qs (add_names ps shstr)
unfolding add_names
add_names-append [] qs shstr = refl
add_names-append (p ∷ ps) qs shstr = add_names-append ps qs (write_str p.name shstr)

get_elem?-last :
    {A : Type 0} → (xs : List A) (x : A) → get_elem? (xs ++ x ∷ []) (length xs) ≡ some x
get_elem?-last [] x = refl
get_elem?-last (y ∷ xs) x = get_elem?-last xs x

-- The names of the parts are the body of the last one.
shstr_part-body :
    (elf : Elf) → (shstr_part (named_parts elf)).body ≡ add_names (all_parts elf) (0 ∷ [])
unfolding shstr_part all_parts add_names
shstr_part-body elf =
    sym (add_names-append (named_parts elf) (shstr_part (named_parts elf) ∷ []) (0 ∷ []))

-- A section of the file: its header at index i + 1 of the table, its body at a multiple of its alignment, and its name at
-- the offset `strings` of the names.
pub record Placed (elf : Elf) (file : List ℕ) (strings i : ℕ) (part : Part) : Type 0 where
  pub name : ℕ
  pub off : ℕ
  pub short : name < 2 ^ 32
  pub header :
      LiesAt file
        (shoff_of (all_parts elf) + suc i * shdr_size)
        (shdr_bytes (header_of part name off))
  pub multiple : (k : ℕ) × (off ≡ k * alignment part.addralign)
  pub body : LiesAt file off part.body
  pub fits : off + length part.body ≤ ehdr_size + room (all_parts elf)
  pub named : LiesAt file (strings + name) (part.name ++ 0 ∷ [])

-- The sections of the file, the last of which, with the index e_shstrndx, has the names.
pub record AllPlaced (elf : Elf) (file : List ℕ) : Type 0 where
  pub name : ℕ
  pub strings : ℕ
  pub short : name < 2 ^ 32
  pub fits : strings + length (shstr_part (named_parts elf)).body ≤ ehdr_size + room (all_parts elf)
  pub header :
      LiesAt file
        (shoff_of (all_parts elf) + length (all_parts elf) * shdr_size)
        (shdr_bytes (header_of (shstr_part (named_parts elf)) name strings))
  pub placed :
      (i : ℕ) (part : Part)
      → get_elem? (all_parts elf) i ≡ some part
      → Placed elf file strings i part

-- While the file stays below 2 ^ 64 bytes and the names of its sections below 2 ^ 32, every section has its header in
-- the table, behind the zero one, its bytes at an offset that is a multiple of its alignment, and its name, with the NUL,
-- in the section of the names.
pub write_rel-AllPlaced :
    (elf : Elf)
    → ehdr_size + room (all_parts elf) + 7 < 2 ^ 64
    → length (add_names (all_parts elf) (0 ∷ [])) < 2 ^ 32
    → AllPlaced elf (write_rel elf)
unfolding write_rel all_parts
write_rel-AllPlaced elf l m =
    let parts = all_parts elf in
    let last = shstr_part (named_parts elf) in
    let n = length (named_parts elf) in
    let s = write_parts-PlacedIn elf parts n last l m (get_elem?-last (named_parts elf) last) in
    record {
      name = s.name;
      strings = s.off;
      short = s.short;
      fits = s.fits;
      header =
          LiesAt-moved (write_rel elf) (shoff_of parts + suc n * shdr_size) _
            (shdr_bytes (header_of last s.name s.off))
            (ap (λ k. shoff_of parts + k * shdr_size)
              (omega (arith, length-append (named_parts elf) (last ∷ []))))
            s.header;
      placed = λ i part e.
          let p = write_parts-PlacedIn elf parts i part l m e in
          record {
            name = p.name;
            off = p.off;
            short = p.short;
            header = p.header;
            multiple = p.multiple;
            body = p.body;
            fits = p.fits;
            named =
                LiesAt-within (write_rel elf) s.off last.body p.name (part.name ++ 0 ∷ []) s.body (
                  subst (λ bs. LiesAt bs p.name (part.name ++ 0 ∷ [])) (sym (shstr_part-body elf))
                    p.named);
          };
    }
