-- ===== src/Link/Apart.antt =====
-- Where Link_PlaceSections puts the sections that no -place names.
use mathlib.Core.Path.{subst}
use mathlib.Core.Option.{some-injective}
use ivan_cc.Prelude.{
  ℕ, zero, suc, ◌+◌, ◌%◌, ◌^◌, ◌≤◌, ◌<◌, true, Option, none, some, List, [], ◌∷◌, ◌≡◌, refl, All,
  All-map, length, get_elem?, ltb, inl, inr, Bool-cases, arith,
}
use ivan_cc.Prelude.Name.{Name, name_eq}
use ivan_cc.Elf.Object.{Elf, Sec}
use ivan_cc.Elf.Buffer.{page}
use ivan_cc.Link.Place.{
  Options, Place, placed_addr, is_alloc, load_addr, end_of, next_page, place_section, place_from,
  place_sections, link_base,
}

-- The room that sections take, each up to a page more than its bytes.
abbrev pub weight : List Sec → ℕ
weight [] = 0
weight (sec ∷ secs) = length sec.bytes + page + weight secs

-- `after` is the next free page for a section that ends at `end`.
record NextPage (next end after : ℕ) : Type 0 where
  pub behind : next ≤ after
  pub behind_end : end ≤ after
  pub whole : after % page ≡ 0
  pub near : (limit : ℕ) → next ≤ limit → end ≤ limit → after ≤ limit + page

next_page-NextPage :
    (next end : ℕ) → next % page ≡ 0 → end + page < 2 ^ 64 → NextPage next end (next_page next end)
unfolding next_page
next_page-NextPage next end h l = elim (Bool-cases (ltb next end)) [
  | inl e ↦ rw e (record {
    behind = ground arith;
    behind_end = omega arith;
    whole = omega arith;
    near = λ limit a b. omega arith;
  })
  | inr e ↦ rw e (record {
    behind = omega arith;
    behind_end = ground arith;
    whole = h;
    near = λ limit a b. omega arith;
  })
]

placed_addr_le :
    (places : List Place) (name : Name) (limit a : ℕ)
    → All (λ p. p.addr ≤ limit) places
    → placed_addr places name ≡ some a
    → a ≤ limit
unfolding placed_addr
placed_addr_le [] name limit a h e = cc
placed_addr_le (p ∷ places) name limit a h e = elim (Bool-cases (name_eq p.name name)) [
  | inl t ↦ subst (λ n. n ≤ limit) (some-injective _ _ (rw t at e)) h.0
  | inr f ↦ placed_addr_le places name limit a h.1 (rw f at e)
]

load_addr_le :
    (places : List Place) (next limit : ℕ) (sec : Sec)
    → All (λ p. p.addr ≤ limit) places
    → next ≤ limit
    → load_addr places next sec ≤ limit
unfolding load_addr
load_addr_le places next limit sec h l = go (placed_addr places sec.name) refl
  where
    go : (o : Option ℕ) → placed_addr places sec.name ≡ o → load_addr places next sec ≤ limit
    go none e = rw (load_addr, e) l
    go (some a) e = rw (load_addr, e) (placed_addr_le places sec.name limit a h e)

-- A section before and after it is placed, with the next free page.
record Step (places : List Place) (next limit : ℕ) (old new : Sec) (after : ℕ) : Type 0 where
  pub onward : next ≤ after
  pub whole : after % page ≡ 0
  pub near : after ≤ limit + length old.bytes + page
  pub behind : is_alloc new ≡ true → new.addr + length new.bytes ≤ after
  pub at : is_alloc new ≡ true → placed_addr places new.name ≡ none → new.addr ≡ next

place_section-Step :
    (places : List Place) (next limit : ℕ) (sec : Sec)
    → next % page ≡ 0
    → All (λ p. p.addr ≤ limit) places
    → next ≤ limit
    → limit + length sec.bytes + page < 2 ^ 64
    → Step places next limit sec (place_section places next sec).0 (place_section places next sec).1
unfolding place_section load_addr
place_section-Step places next limit sec h all l room = elim (Bool-cases (is_alloc sec)) [
  | inl e ↦ rw e placed
  | inr e ↦ rw e (record {
    onward = omega arith;
    whole = h;
    near = omega arith;
    behind = λ q. cc (e, q);
    at = λ q. cc (e, q);
  })
]
  where
    start : ℕ
    start = load_addr places next sec

    below : load_addr places next sec ≤ limit
    below = load_addr_le places next limit sec all l

    end : end_of (load_addr places next sec) sec ≡ load_addr places next sec + length sec.bytes
    end = omega (arith, below)

    placed :
        Step places next limit sec
          (record sec { addr = load_addr places next sec })
          (next_page next (end_of (load_addr places next sec) sec))
    placed =
        let p = next_page-NextPage next (end_of start sec) h (omega (arith, below)) in
        record {
          onward = p.behind;
          whole = p.whole;
          near = p.near (limit + length sec.bytes) (omega arith) (omega (arith, below));
          behind = λ q. omega (arith, p.behind_end, end);
          at = λ q e. rw (load_addr, e) refl;
        }

further :
    (places : List Place) (limit limit' : ℕ)
    → limit ≤ limit'
    → All (λ p. p.addr ≤ limit) places
    → All (λ p. p.addr ≤ limit') places
further places limit limit' l h =
    All-map (λ p. p.addr ≤ limit) (λ p. p.addr ≤ limit') places (λ p x. omega arith) h

-- Every section that no -place names starts on a page, at or behind `next`.
place_from-after :
    (places : List Place) (next limit : ℕ) (secs : List Sec) (j : ℕ) (b : Sec)
    → next % page ≡ 0
    → All (λ p. p.addr ≤ limit) places
    → next ≤ limit
    → limit + weight secs < 2 ^ 64
    → get_elem? (place_from places next secs) j ≡ some b
    → is_alloc b ≡ true
    → placed_addr places b.name ≡ none
    → (next ≤ b.addr) × (b.addr % page ≡ 0)
unfolding place_from
place_from-after places next limit [] j b h all l room at alloc free = cc
place_from-after places next limit (sec ∷ secs) zero b h all l room at alloc free =
    let r = place_section places next sec in
    let step = place_section-Step places next limit sec h all l (omega arith) in
    subst
      (λ z.
        is_alloc z ≡ true
        → placed_addr places z.name ≡ none
        → (next ≤ z.addr) × (z.addr % page ≡ 0))
      (some-injective _ _ at)
      (λ q e.
        let same : r.0.addr ≡ next = step.at q e in (omega (arith, same), omega (arith, same, h)))
      alloc free
place_from-after places next limit (sec ∷ secs) (suc j) b h all l room at alloc free =
    let r = place_section places next sec in
    let step = place_section-Step places next limit sec h all l (omega arith) in
    let limit' = limit + length sec.bytes + page in
    let rest =
      place_from-after places r.1 limit' secs j b step.whole
        (further places limit limit' (omega arith) all) step.near (omega arith) at alloc free in
    (omega (arith, step.onward, rest.0), rest.1)

-- Nothing of `a` is at or behind the start of `b`, which is on a page.
abbrev pub Before : Sec → Sec → Type 0
Before a b = (a.addr + length a.bytes ≤ b.addr) × (b.addr % page ≡ 0)

place_from-Before :
    (places : List Place) (next limit : ℕ) (secs : List Sec) (i j : ℕ) (a b : Sec)
    → next % page ≡ 0
    → All (λ p. p.addr ≤ limit) places
    → next ≤ limit
    → limit + weight secs < 2 ^ 64
    → i < j
    → get_elem? (place_from places next secs) i ≡ some a
    → get_elem? (place_from places next secs) j ≡ some b
    → is_alloc a ≡ true
    → is_alloc b ≡ true
    → placed_addr places b.name ≡ none
    → Before a b
unfolding place_from
place_from-Before places next limit [] i j a b h all l room lt at_a at_b alloc_a alloc_b free = cc
place_from-Before places next limit (sec ∷ secs) i zero a b h all l room lt at_a at_b alloc_a
      alloc_b free =
    absurd (omega arith)
place_from-Before places next limit (sec ∷ secs) zero (suc j) a b h all l room lt at_a at_b alloc_a
      alloc_b free =
    let r = place_section places next sec in
    let step = place_section-Step places next limit sec h all l (omega arith) in
    let limit' = limit + length sec.bytes + page in
    let rest =
      place_from-after places r.1 limit' secs j b step.whole
        (further places limit limit' (omega arith) all) step.near (omega arith) at_b alloc_b free in
    let ends =
      subst (λ z. is_alloc z ≡ true → z.addr + length z.bytes ≤ r.1) (some-injective _ _ at_a)
        step.behind alloc_a in
    (omega (arith, ends, rest.0), rest.1)
place_from-Before places next limit (sec ∷ secs) (suc i) (suc j) a b h all l room lt at_a at_b
      alloc_a alloc_b free =
    let r = place_section places next sec in
    let step = place_section-Step places next limit sec h all l (omega arith) in
    let limit' = limit + length sec.bytes + page in
    place_from-Before places r.1 limit' secs i j a b step.whole
      (further places limit limit' (omega arith) all) step.near (omega arith) (omega arith) at_a
      at_b alloc_a alloc_b free

-- Link_PlaceSections, when the addresses that -place requests, the first free page and the room of all sections together
-- stay below 2 ^ 64: a loaded section that no -place names starts on a page, behind the end of every loaded section
-- that comes before it in the object, also of those at requested addresses.
pub place_sections-Before :
    (opts : Options) (elf : Elf) (limit i j : ℕ) (a b : Sec)
    → All (λ p. p.addr ≤ limit) opts.places
    → link_base + page ≤ limit
    → limit + weight elf.secs < 2 ^ 64
    → i < j
    → get_elem? (place_sections opts elf).secs i ≡ some a
    → get_elem? (place_sections opts elf).secs j ≡ some b
    → is_alloc a ≡ true
    → is_alloc b ≡ true
    → placed_addr opts.places b.name ≡ none
    → Before a b
unfolding place_sections
place_sections-Before opts elf limit i j a b all l room lt at_a at_b alloc_a alloc_b free =
    place_from-Before opts.places (link_base + page) limit elf.secs i j a b refl all l room lt at_a
      at_b alloc_a alloc_b free
