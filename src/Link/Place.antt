-- ===== src/Link/Place.antt =====
-- Load addresses: Link_PlacedAddr and Link_PlaceSections.
use ivan_cc.Prelude.{
  ℕ, ◌+◌, ◌-◌, ◌*◌, ◌/◌, ◌%◌, ◌^◌, Bool, Option, none, some, List, [], ◌∷◌, ltb, if◌then◌else◌,
  length, bit_and,
}
use ivan_cc.Prelude.Name.{Name, name_eq}
use ivan_cc.Elf.Object.{Elf, Sec, shf_alloc}
use ivan_cc.Elf.Buffer.{page}

-- LINK_BASE, and LINK_PAGE is `page`.
abbrev pub link_base : ℕ
link_base = 0x400000

-- `Link_Place`.
pub record Place : Type 0 where
  pub name : Name
  pub addr : ℕ

-- `Link_Options`; `lo_nplaces` is the length of the list.
pub record Options : Type 0 where
  pub entry : Option Name
  pub relocatable : Bool
  pub places : List Place

-- The address, if one is requested; `*placed` is 0 for `none`.
unfoldable pub placed_addr : List Place → Name → Option ℕ
placed_addr [] name = none
placed_addr (place ∷ places) name =
    let rest = placed_addr places name in if name_eq place.name name then some place.addr else rest

abbrev pub is_alloc : Sec → Bool
is_alloc sec = ltb 0 (bit_and sec.flags shf_alloc)

-- `addr` of a section, when the next free page is at `next`.
unfoldable pub load_addr : List Place → ℕ → Sec → ℕ
load_addr places next sec = elim (placed_addr places sec.name) [ none ↦ next | some addr ↦ addr ]

-- `end`.
abbrev pub end_of : ℕ → Sec → ℕ
end_of addr sec = (addr + length sec.bytes) % 2 ^ 64

-- `next` behind a section that ends at `end`.
unfoldable pub next_page : ℕ → ℕ → ℕ
next_page next end = if ltb next end then (end + page - 1) % 2 ^ 64 / page * page else next

-- The section with its address, and `next` behind it.
unfoldable pub place_section : List Place → ℕ → Sec → Sec × ℕ
place_section places next sec =
    if is_alloc sec
    then (
      record sec { addr = load_addr places next sec },
      next_page next (end_of (load_addr places next sec) sec),
    )
    else (sec, next)

unfoldable pub place_from : List Place → ℕ → List Sec → List Sec
place_from places next [] = []
place_from places next (sec ∷ secs) =
    let (sec', next') = place_section places next sec in sec' ∷ place_from places next' secs

unfoldable pub place_sections : Options → Elf → Elf
place_sections opts elf = record elf { secs = place_from opts.places (link_base + page) elf.secs }
