-- ===== src/Elf/Loads.antt =====
-- What a loader finds in the file of an executable.
use mathlib.Core.Path.{subst}
use mathlib.Core.Option.{some-injective}
use ivan_cc.Prelude.{
  ℕ, zero, suc, ◌+◌, ◌-◌, ◌*◌, ◌%◌, ◌^◌, ◌≤◌, ◌<◌, some, List, [], ◌∷◌, ◌++◌, ◌≡◌, refl, sym, ap,
  ◌∙◌, length, length-append, get_elem?, append_assoc, arith, ◌-ℤ◌,
}
use ivan_cc.Elf.Object.{Elf, Sec}
use ivan_cc.Elf.Buffer.{page, zeros, place_offset}
use ivan_cc.Elf.Exec.{
  segments, offsets, write_phdrs, write_bodies, write_exec, headers_size, phdr_bytes, ehdr_bytes,
  segment_phdr, exec_ehdr, phdr_size, ehdr_size,
}

-- Elf_PlaceOffset: the first position behind that is congruent to the address.
record NextOffset (at vaddr off : ℕ) : Type 0 where
  pub behind : at ≤ off
  pub near : off < at + page
  pub congruent : off % page ≡ vaddr % page

place_offset-NextOffset :
    (at vaddr : ℕ) → at + page < 2 ^ 64 → NextOffset at vaddr (place_offset at vaddr)
unfolding place_offset ◌-ℤ◌
place_offset-NextOffset at vaddr l = record {
  behind = ground arith;
  near = ground arith;
  congruent = ground arith;
}

-- `bytes` lie in `file` at `off`.
abbrev pub LiesAt : List ℕ → ℕ → List ℕ → Type 0
LiesAt file off bytes =
    (before : List ℕ) × (after : List ℕ) × (file ≡ before ++ (bytes ++ after))
    × (length before ≡ off)

pub length-zeros : (n : ℕ) → length (zeros n) ≡ n
length-zeros zero = refl
length-zeros (suc n) = ap suc (length-zeros n)

-- The room that segments take in the file, each up to a page more than its bytes.
abbrev pub room : List Sec → ℕ
room [] = 0
room (seg ∷ segs) = length seg.bytes + page + room segs

-- A segment with its offset, and its bytes behind the file position `at`.
record Stored (at : ℕ) (segs : List Sec) (i : ℕ) (seg : Sec) (bodies : List ℕ) : Type 0 where
  pub off : ℕ
  pub listed : get_elem? (offsets at segs) i ≡ some off
  pub congruent : off % page ≡ seg.addr % page
  pub before : List ℕ
  pub after : List ℕ
  pub body : bodies ≡ before ++ (seg.bytes ++ after)
  pub place : at + length before ≡ off
  pub fits : off + length seg.bytes ≤ at + room segs

behind :
    (xs ys before rest bs : List ℕ)
    → bs ≡ before ++ rest
    → xs ++ (ys ++ bs) ≡ (xs ++ (ys ++ before)) ++ rest
behind xs ys before rest bs e =
    ap (λ z. xs ++ (ys ++ z)) e
    ∙ (ap (λ z. xs ++ z) (sym (append_assoc ys before rest))
        ∙ sym (append_assoc xs (ys ++ before) rest))

bodies-Stored :
    (at : ℕ) (segs : List Sec) (i : ℕ) (seg : Sec)
    → at + room segs < 2 ^ 64
    → get_elem? segs i ≡ some seg
    → Stored at segs i seg (write_bodies at segs (offsets at segs))
unfolding offsets write_bodies
bodies-Stored at [] i seg l e = cc
bodies-Stored at (s ∷ segs) zero seg l e =
    let off = place_offset at s.addr in
    let next = place_offset-NextOffset at s.addr (omega arith) in
    subst (λ z. Stored at (s ∷ segs) zero z (write_bodies at (s ∷ segs) (offsets at (s ∷ segs))))
      (some-injective _ _ e)
      (record {
        off = off;
        listed = refl;
        congruent = next.congruent;
        before = zeros (off - at);
        after =
            write_bodies (at + (off - at) + length s.bytes) segs
              (offsets ((off + length s.bytes) % 2 ^ 64) segs);
        body = refl;
        place = omega (arith, length-zeros (off - at), next.behind);
        fits = omega (arith, next.near);
      })
bodies-Stored at (s ∷ segs) (suc i) seg l e =
    let off = place_offset at s.addr in
    let next = place_offset-NextOffset at s.addr (omega arith) in
    let at' = (off + length s.bytes) % 2 ^ 64 in
    let same : at + (off - at) + length s.bytes ≡ at' = omega (arith, next.behind, next.near) in
    let rest = bodies-Stored at' segs i seg (omega (arith, next.near)) e in
    record {
      off = rest.off;
      listed = rest.listed;
      congruent = rest.congruent;
      before = zeros (off - at) ++ (s.bytes ++ rest.before);
      after = rest.after;
      body =
          ap (λ p. zeros (off - at) ++ (s.bytes ++ write_bodies p segs (offsets at' segs))) same
          ∙ behind (zeros (off - at)) s.bytes rest.before (seg.bytes ++ rest.after) _ rest.body;
      place = omega (
        arith,
        length-append (zeros (off - at)) (s.bytes ++ rest.before),
        length-append s.bytes rest.before,
        length-zeros (off - at),
        rest.place,
        next.behind,
        next.near,
      );
      fits = omega (arith, rest.fits, next.near);
    }

-- The program header of a segment, in the table.
write_phdrs-LiesAt :
    (segs : List Sec) (offs : List ℕ) (i : ℕ) (seg : Sec) (off : ℕ)
    → get_elem? segs i ≡ some seg
    → get_elem? offs i ≡ some off
    → LiesAt (write_phdrs segs offs) (i * phdr_size) (phdr_bytes (segment_phdr seg off))
unfolding write_phdrs
write_phdrs-LiesAt [] offs i seg off e f = cc
write_phdrs-LiesAt (s ∷ segs) [] i seg off e f = cc
write_phdrs-LiesAt (s ∷ segs) (o ∷ offs) zero seg off e f = (
  [],
  write_phdrs segs offs,
  ap (λ z. phdr_bytes (segment_phdr z o) ++ write_phdrs segs offs) (some-injective _ _ e)
      ∙ ap (λ z. phdr_bytes (segment_phdr seg z) ++ write_phdrs segs offs) (some-injective _ _ f),
  refl,
)
write_phdrs-LiesAt (s ∷ segs) (o ∷ offs) (suc i) seg off e f =
    let (before, after, q, l) = write_phdrs-LiesAt segs offs i seg off e f in
    (
      phdr_bytes (segment_phdr s o) ++ before,
      after,
      ap (λ bs. phdr_bytes (segment_phdr s o) ++ bs) q
          ∙ sym (
              append_assoc (phdr_bytes (segment_phdr s o)) before
                (phdr_bytes (segment_phdr seg off) ++ after)),
      omega (arith, l, length-append (phdr_bytes (segment_phdr s o)) before),
    )

length-write_phdrs :
    (at : ℕ) (segs : List Sec)
    → length (write_phdrs segs (offsets at segs)) ≡ length segs * phdr_size
unfolding write_phdrs offsets
length-write_phdrs at [] = refl
length-write_phdrs at (seg ∷ segs) =
    let off = place_offset at seg.addr in
    omega (
      arith,
      length-append (phdr_bytes (segment_phdr seg off))
          (write_phdrs segs (offsets ((off + length seg.bytes) % 2 ^ 64) segs)),
      length-write_phdrs ((off + length seg.bytes) % 2 ^ 64) segs,
    )

-- The program header and the bytes of a segment, in a file.
pub record Loads (i : ℕ) (seg : Sec) (file : List ℕ) : Type 0 where
  pub off : ℕ
  pub congruent : off % page ≡ seg.addr % page
  pub fits : off + length seg.bytes < 2 ^ 64
  pub header : LiesAt file (ehdr_size + i * phdr_size) (phdr_bytes (segment_phdr seg off))
  pub body : LiesAt file off seg.bytes

-- Bytes behind others.
LiesAt-behind :
    (front file : List ℕ) (off : ℕ) (bytes : List ℕ)
    → LiesAt file off bytes
    → LiesAt (front ++ file) (length front + off) bytes
LiesAt-behind front file off bytes (before, after, e, l) = (
  front ++ before,
  after,
  ap (λ z. front ++ z) e ∙ sym (append_assoc front before (bytes ++ after)),
  omega (arith, l, length-append front before),
)

pub LiesAt-before :
    (file back : List ℕ) (off : ℕ) (bytes : List ℕ)
    → LiesAt file off bytes
    → LiesAt (file ++ back) off bytes
LiesAt-before file back off bytes (before, after, e, l) = (
  before,
  after ++ back,
  ap (λ z. z ++ back) e
      ∙ (append_assoc before (bytes ++ after) back
          ∙ ap (λ z. before ++ z) (append_assoc bytes after back)),
  l,
)

-- Elf_WriteExec, on an object whose loadable sections, each with a page to spare, fit with the headers below 2 ^ 64: the
-- file has for each of them a program header, in its place in the table behind the file header, with the load address
-- and the size of the section and an offset that is congruent to the address modulo the page; and the section's bytes
-- lie in the file at that offset.
pub write_exec-Loads :
    (elf : Elf) (i : ℕ) (seg : Sec)
    → headers_size (segments elf.secs) + room (segments elf.secs) < 2 ^ 64
    → get_elem? (segments elf.secs) i ≡ some seg
    → Loads i seg (write_exec elf)
unfolding write_exec
write_exec-Loads elf i seg l e =
    let segs = segments elf.secs in
    let offs = offsets (headers_size segs) segs in
    let stored = bodies-Stored (headers_size segs) segs i seg l e in
    let header = phdr_bytes (segment_phdr seg stored.off) in
    let front = ehdr_bytes (exec_ehdr elf (length segs)) in
    let table = write_phdrs segs offs in
    let bodies = write_bodies (headers_size segs) segs offs in
    let inside : LiesAt bodies (length stored.before) seg.bytes =
      (stored.before, stored.after, stored.body, refl) in
    let behind_table = LiesAt-behind table bodies (length stored.before) seg.bytes inside in
    let whole =
      LiesAt-behind front (table ++ bodies) (length table + length stored.before) seg.bytes
        behind_table in
    let at : length front + (length table + length stored.before) ≡ stored.off =
      omega (arith, stored.place, length-write_phdrs (headers_size segs) segs) in
    record {
      off = stored.off;
      congruent = stored.congruent;
      fits = omega (arith, l, stored.fits);
      header = LiesAt-behind front (table ++ bodies) (i * phdr_size) header (
          LiesAt-before table bodies (i * phdr_size) header
            (write_phdrs-LiesAt segs offs i seg stored.off e stored.listed));
      body = subst (λ o. LiesAt (front ++ (table ++ bodies)) o seg.bytes) at whole;
    }
