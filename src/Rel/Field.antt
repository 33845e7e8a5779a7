-- ===== src/Rel/Field.antt =====
-- What a patched field reads back as.
use ivan_cc.Prelude.{
  ℕ, zero, suc, ◌+◌, ◌*◌, ◌/◌, ◌%◌, ◌^◌, ◌≤◌, ◌<◌, some, none, List, ◌≡◌, ◌≢◌, refl, ◌∙◌, ap, ok,
  length, get_elem?, set, get_elem?-set_self, get_elem?-set_ne, length-set, ◌⊎◌, inl, inr, le→leb,
  arith,
}
use ivan_cc.Rel.Patch.{patch_from, patch_le}

-- The byte at a place, 0 outside.
abbrev pub byte_at : List ℕ → ℕ → ℕ
byte_at bytes i = elim (get_elem? bytes i) [ none ↦ 0 | some b ↦ b ]

-- The little-endian number in `width` bytes from `offset`.
unfoldable pub read_le : ℕ → ℕ → List ℕ → ℕ
read_le zero offset bytes = 0
read_le (suc width) offset bytes = byte_at bytes offset + 256 * read_le width (offset + 1) bytes

patch_from-length :
    (width offset value : ℕ) (bytes : List ℕ)
    → length (patch_from width offset value bytes) ≡ length bytes
unfolding patch_from
patch_from-length zero offset value bytes = refl
patch_from-length (suc width) offset value bytes =
    patch_from-length width (offset + 1) (value / 256) (set bytes offset (value % 256))
    ∙ length-set bytes offset (value % 256)

-- Bytes outside the field stay.
patch_from-outside :
    (width offset value : ℕ) (bytes : List ℕ) (j : ℕ)
    → (j < offset) ⊎ (offset + width ≤ j)
    → get_elem? (patch_from width offset value bytes) j ≡ get_elem? bytes j
unfolding patch_from
patch_from-outside zero offset value bytes j h = refl
patch_from-outside (suc width) offset value bytes j h =
    patch_from-outside width (offset + 1) (value / 256) (set bytes offset (value % 256)) j
      (beyond h)
    ∙ get_elem?-set_ne bytes offset j (value % 256) (apart h)
  where
    beyond : (j < offset) ⊎ (offset + suc width ≤ j) → (j < offset + 1) ⊎ (offset + 1 + width ≤ j)
    beyond (inl l) = inl (omega arith)
    beyond (inr l) = inr (omega arith)

    apart : (j < offset) ⊎ (offset + suc width ≤ j) → offset ≢ j
    apart (inl l) = λ e. omega arith
    apart (inr l) = λ e. omega arith

patch_from-first :
    (width offset value : ℕ) (bytes : List ℕ)
    → offset < length bytes
    → byte_at (patch_from (suc width) offset value bytes) offset ≡ value % 256
unfolding patch_from
patch_from-first width offset value bytes h =
    ap (λ o. elim o as (λ z. ℕ) [ none ↦ 0 | some b ↦ b ])
      (patch_from-outside width (offset + 1) (value / 256) (set bytes offset (value % 256)) offset
          (inl (omega arith))
        ∙ get_elem?-set_self bytes offset (value % 256) h)

-- The `width` low bytes of a value.
pub low_bytes : ℕ → ℕ → ℕ
low_bytes zero value = 0
low_bytes (suc width) value = value % 256 + 256 * low_bytes width (value / 256)

pub low_bytes_four : (v : ℕ) → low_bytes 4 v ≡ v % 2 ^ 32
unfolding low_bytes
low_bytes_four v = omega arith

pub low_bytes_eight : (v : ℕ) → low_bytes 8 v ≡ v % 2 ^ 64
unfolding low_bytes
low_bytes_eight v = omega arith

step_of :
    (width offset value : ℕ) (bytes : List ℕ)
    → read_le width
        (offset + 1)
        (patch_from width (offset + 1) (value / 256) (set bytes offset (value % 256)))
      ≡ low_bytes width (value / 256)
    → read_le width (offset + 1) (patch_from (suc width) offset value bytes)
      ≡ low_bytes width (value / 256)
unfolding patch_from
step_of width offset value bytes h = h

read_le-patch_from :
    (width offset value : ℕ) (bytes : List ℕ)
    → offset + width ≤ length bytes
    → read_le width offset (patch_from width offset value bytes) ≡ low_bytes width value
unfolding read_le low_bytes
read_le-patch_from zero offset value bytes h = refl
read_le-patch_from (suc width) offset value bytes h =
    let first = patch_from-first width offset value bytes (omega arith) in
    let shorter =
      read_le-patch_from width (offset + 1) (value / 256) (set bytes offset (value % 256))
        (omega (arith, length-set bytes offset (value % 256))) in
    omega (arith, first, step_of width offset value bytes shorter)

-- A buffer before and after a write of the low bytes of a value.
pub record Patched (offset width value : ℕ) (old new : List ℕ) : Type 0 where
  pub reads : read_le width offset new ≡ low_bytes width value
  pub same_length : length new ≡ length old
  pub outside : (j : ℕ) → (j < offset) ⊎ (offset + width ≤ j) → get_elem? new j ≡ get_elem? old j

-- Rel_x86_64_PatchLE in bounds returns: the field reads back, the lowest byte first, as the low bytes of the value, the
-- length stays, and so does every byte outside the field.
pub patch_le-Patched :
    (offset value width : ℕ) (bytes : List ℕ)
    → offset + width ≤ length bytes
    → (new : List ℕ) × (patch_le offset value width bytes ≡ ok new)
      × Patched offset width value bytes new
unfolding patch_le
patch_le-Patched offset value width bytes h = (
  patch_from width offset value bytes,
  rw (le→leb _ _ h) refl,
  record {
    reads = read_le-patch_from width offset value bytes h;
    same_length = patch_from-length width offset value bytes;
    outside = patch_from-outside width offset value bytes;
  },
)
