-- ===== src/Elf/Fields.antt =====
-- Reading what lies at a known place of a file.
use ivan_cc.Prelude.{
  ℕ, ◌+◌, ◌*◌, ◌^◌, ◌≤◌, ◌<◌, List, [], ◌∷◌, ◌++◌, ◌≡◌, refl, sym, ap, ◌∙◌, length, length-append,
  take, drop, arith, ok, ◌>>=◌,
}
use ivan_cc.Prelude.Name.{Name}
use ivan_cc.Elf.Object.{little}
use ivan_cc.Elf.Loads.{LiesAt}
use ivan_cc.Elf.Relocatable.{Shdr, shdr_bytes, shdr_size}
use ivan_cc.Elf.Reader.{slice, from_little, field, until_nul, c_string, shdr_of, shdr_at}

pub from_little-little8 : (v : ℕ) → v < 2 ^ 64 → from_little (little 8 v) ≡ v
unfolding from_little
from_little-little8 v l = omega arith

pub from_little-little4 : (v : ℕ) → v < 2 ^ 32 → from_little (little 4 v) ≡ v
unfolding from_little
from_little-little4 v l = omega arith

pub record FitsShdr (h : Shdr) : Type 0 where
  pub name : h.name < 2 ^ 32
  pub type : h.type < 2 ^ 32
  pub flags : h.flags < 2 ^ 64
  pub addr : h.addr < 2 ^ 64
  pub offset : h.offset < 2 ^ 64
  pub size : h.size < 2 ^ 64
  pub link : h.link < 2 ^ 32
  pub info : h.info < 2 ^ 32
  pub addralign : h.addralign < 2 ^ 64
  pub entsize : h.entsize < 2 ^ 64

pub shdr_of-shdr_bytes : (h : Shdr) → FitsShdr h → shdr_of (shdr_bytes h) ≡ h
unfolding shdr_of shdr_bytes field
shdr_of-shdr_bytes h f = λ i. record {
  name = from_little-little4 h.name f.name i;
  type = from_little-little4 h.type f.type i;
  flags = from_little-little8 h.flags f.flags i;
  addr = from_little-little8 h.addr f.addr i;
  offset = from_little-little8 h.offset f.offset i;
  size = from_little-little8 h.size f.size i;
  link = from_little-little4 h.link f.link i;
  info = from_little-little4 h.info f.info i;
  addralign = from_little-little8 h.addralign f.addralign i;
  entsize = from_little-little8 h.entsize f.entsize i;
}

pub type-shdr_of : (h : Shdr) → h.type < 2 ^ 32 → (shdr_of (shdr_bytes h)).type ≡ h.type
unfolding shdr_of shdr_bytes field
type-shdr_of h l = from_little-little4 h.type l

drop-behind : (xs ys : List ℕ) → drop (length xs) (xs ++ ys) ≡ ys
drop-behind [] ys = refl
drop-behind (x ∷ xs) ys = drop-behind xs ys

pub take-front : (xs ys : List ℕ) → take (length xs) (xs ++ ys) ≡ xs
take-front [] ys = refl
take-front (x ∷ xs) ys = ap (λ z. x ∷ z) (take-front xs ys)

pub drop-LiesAt :
    (file : List ℕ) (off : ℕ) (bs : List ℕ) (lies : LiesAt file off bs)
    → drop off file ≡ bs ++ lies.1
drop-LiesAt file off bs (before, after, e, l) =
    ap (λ f. drop off f) e
    ∙ (ap (λ n. drop n (before ++ (bs ++ after))) (sym l) ∙ drop-behind before (bs ++ after))

pub slice-LiesAt :
    (file : List ℕ) (off : ℕ) (bs : List ℕ)
    → LiesAt file off bs
    → slice file off (length bs) ≡ ok bs
unfolding slice
slice-LiesAt file off bs lies =
    let (before, after, e, l) = lies in
    let e' : length file ≡ off + (length bs + length after) =
      ap length e
      ∙ (length-append before (bs ++ after) ∙ omega (arith, l, length-append bs after)) in
    let d : take (length bs) (drop off file) ≡ bs =
      ap (take (length bs)) (drop-LiesAt file off bs lies) ∙ take-front bs after in
    ground (arith, e', d)

-- A string without a NUL.
unfoldable pub HasNoNul : Name → Type 0
HasNoNul [] = Unit
HasNoNul (c ∷ cs) = (1 ≤ c) × HasNoNul cs

until_nul-front :
    (name : Name) (after : List ℕ) → HasNoNul name → until_nul ((name ++ 0 ∷ []) ++ after) ≡ ok name
unfolding until_nul HasNoNul
until_nul-front [] after h = refl
until_nul-front (c ∷ cs) after (p, h) = grind (arith, until_nul-front cs after h)

pub c_string-LiesAt :
    (file : List ℕ) (off : ℕ) (name : Name)
    → HasNoNul name
    → LiesAt file off (name ++ 0 ∷ [])
    → c_string file off ≡ ok name
unfolding c_string
c_string-LiesAt file off name h lies =
    ap until_nul (drop-LiesAt file off (name ++ 0 ∷ []) lies) ∙ until_nul-front name lies.1 h

-- The header is read, its fields as many bytes as they have.
pub shdr_at-raw :
    (file : List ℕ) (shoff i : ℕ) (h : Shdr)
    → LiesAt file (shoff + i * shdr_size) (shdr_bytes h)
    → shdr_at file shoff i ≡ ok (shdr_of (shdr_bytes h))
unfolding shdr_at shdr_bytes
shdr_at-raw file shoff i h lies =
    ap (λ r. r >>= λ bytes. ok (shdr_of bytes))
      (slice-LiesAt file (shoff + i * shdr_size) (shdr_bytes h) lies)

pub shdr_at-LiesAt :
    (file : List ℕ) (shoff i : ℕ) (h : Shdr)
    → FitsShdr h
    → LiesAt file (shoff + i * shdr_size) (shdr_bytes h)
    → shdr_at file shoff i ≡ ok h
shdr_at-LiesAt file shoff i h f lies =
    shdr_at-raw file shoff i h lies ∙ ap ok (shdr_of-shdr_bytes h f)
