-- ===== src/Rel/Patch.antt =====
-- Writing and reading of little-endian fields: Rel_x86_64_PatchLE of src/arch/x86_64/rel.c.
use ivan_cc.Prelude.{
  ℕ, zero, suc, ◌+◌, ◌/◌, ◌%◌, List, Outcome, ok, err, out_of_bounds, set, length, leb,
  if◌then◌else◌,
}

-- The loop, on the number of bytes that are left.
unfoldable pub patch_from : ℕ → ℕ → ℕ → List ℕ → List ℕ
patch_from zero offset value bytes = bytes
patch_from (suc width) offset value bytes =
    patch_from width (offset + 1) (value / 256) (set bytes offset (value % 256))

-- A write outside the buffer, which C leaves undefined, is an error.
unfoldable pub patch_le : ℕ → ℕ → ℕ → List ℕ → Outcome (List ℕ)
patch_le offset value width bytes =
    if leb (offset + width) (length bytes)
    then ok (patch_from width offset value bytes)
    else err out_of_bounds
