-- ===== src/Link/Runs.antt =====
-- How a link ends: Link_Exec and Link_Run.
use mathlib.Core.Path.{subst}
use mathlib.Core.Option.{some-injective}
use ivan_cc.Prelude.{
  ℕ, suc, ◌+◌, Bool, true, false, Option, none, some, List, [], ◌∷◌, ◌≡◌, refl, sym, ap, All,
  All-get_elem?, length, get_elem?, get_elem?_of_lt, Outcome, ok, Ends, Ends->>=, Ends-weaken,
  Error, multiple_definition, undefined_symbol_of, undefined_entry, unreadable, ◌>>=◌, arith, inl,
  inr, Bool-cases, if◌then◌else◌, ◌+◌,
}
use ivan_cc.Prelude.Name.{Name, name_eq}
use ivan_cc.Elf.Object.{Elf, Sec, Sym, Rela, find_sym, symbol_find, new, et_rel, em_x86_64}
use ivan_cc.Elf.Buffer.{page}
use ivan_cc.Rel.Apply.{apply}
use ivan_cc.Link.Whole.{Sound, SecSound, Within, IsObject}
use ivan_cc.Link.Merge.{merge_files}
use ivan_cc.Link.Merged.{merge-IsObject}
use ivan_cc.Link.Symbols.{IsMultiple}
use ivan_cc.Link.Applied.{Never, Applied, Applied-IsObject, apply-Applied, symbol_addr-Ends}
use ivan_cc.Link.Place.{
  Options, Place, place_section, place_from, place_sections, is_alloc, link_base,
}
use ivan_cc.Link.Exec.{
  et_exec, check_rela, check_relas, check_secs, defined, entry_name, entry_symbol, link_exec, run,
}

-- The messages that a link may end with.
abbrev pub IsLinkError : Error → Type 0
IsLinkError (multiple_definition name) = Unit
IsLinkError (undefined_symbol_of name) = Unit
IsLinkError (undefined_entry name) = Unit
IsLinkError (unreadable path) = Unit
IsLinkError _ = ⊥

IsLinkError-of_multiple : (e : Error) → IsMultiple e → IsLinkError e
IsLinkError-of_multiple (multiple_definition name) h = tt
IsLinkError-of_multiple _ h = elim h [ ]

place_section-SecSound :
    (n : ℕ) (places : List Place) (next : ℕ) (sec : Sec)
    → SecSound n sec
    → SecSound n (place_section places next sec).0
unfolding place_section
place_section-SecSound n places next sec h = elim (Bool-cases (is_alloc sec)) [
  | inl e ↦ rw e h
  | inr e ↦ rw e h
]

place_from-SecSound :
    (n : ℕ) (places : List Place) (next : ℕ) (secs : List Sec)
    → All (SecSound n) secs
    → All (SecSound n) (place_from places next secs)
      × (length (place_from places next secs) ≡ length secs)
unfolding place_from
place_from-SecSound n places next [] h = (tt, refl)
place_from-SecSound n places next (sec ∷ secs) h =
    let rest = place_from-SecSound n places (place_section places next sec).1 secs h.1 in
    ((place_section-SecSound n places next sec h.0, rest.0), ap suc rest.1)

place_sections-IsObject :
    (opts : Options) (elf : Elf) → IsObject elf → IsObject (place_sections opts elf)
unfolding place_sections
place_sections-IsObject opts elf o =
    let placed =
      place_from-SecSound (length elf.syms) opts.places (link_base + page) elf.secs o.relas in
    record {
      relas = placed.0;
      symbols = subst (λ n. All (λ s. Within n s.sec) elf.syms) (sym placed.1) o.symbols;
    }

check_rela-Ends :
    (syms : List Sym) (size : ℕ) (rel : Rela)
    → Sound (length syms) size rel
    → Ends IsLinkError (λ u. Unit {0}) (check_rela syms rel)
unfolding check_rela
check_rela-Ends syms size rel s =
    let (i, is_i, below) = s.target in
    let (symbol, at) = get_elem?_of_lt syms i below in
    rw (Ends, is_i, at) (go symbol symbol.sec refl)
  where
    go :
        (symbol : Sym) (o : Option ℕ)
        → symbol.sec ≡ o
        → Ends IsLinkError (λ u. Unit {0}) (defined symbol (undefined_symbol_of symbol.name))
    go symbol none e = rw (Ends, e) tt
    go symbol (some j) e = rw (Ends, e) tt

check_relas-Ends :
    (syms : List Sym) (size : ℕ) (relas : List Rela)
    → All (Sound (length syms) size) relas
    → Ends IsLinkError (λ u. Unit {0}) (check_relas syms relas)
unfolding check_relas
check_relas-Ends syms size [] h = tt
check_relas-Ends syms size (rel ∷ relas) h =
    Ends->>= IsLinkError (λ u. Unit {0}) (λ u. Unit {0}) _ _ (check_rela-Ends syms size rel h.0)
      (λ u x. check_relas-Ends syms size relas h.1)

check_secs-Ends :
    (syms : List Sym) (secs : List Sec)
    → All (SecSound (length syms)) secs
    → Ends IsLinkError (λ u. Unit {0}) (check_secs syms secs)
unfolding check_secs
check_secs-Ends syms [] h = tt
check_secs-Ends syms (sec ∷ secs) h =
    Ends->>= IsLinkError (λ u. Unit {0}) (λ u. Unit {0}) _ _
      (check_relas-Ends syms (length sec.bytes) sec.relas h.0)
      (λ u x. check_secs-Ends syms secs h.1)

find_sym-In :
    (name : Name) (i : ℕ) (syms : List Sym) (k : ℕ)
    → find_sym name i syms ≡ some k
    → (j : ℕ) × (symbol : Sym) × (k ≡ i + j) × (get_elem? syms j ≡ some symbol)
unfolding find_sym
find_sym-In name i [] k h = cc
find_sym-In name i (symbol ∷ syms) k h = elim (Bool-cases (name_eq symbol.name name)) [
  | inl t ↦ (0, symbol, omega (arith, some-injective _ _ (rw t at h)), refl)
  | inr f ↦
      let (j, s, e, at_j) = find_sym-In name (i + 1) syms k (rw f at h) in
      (suc j, s, omega arith, at_j)
]

entry_symbol-Ends :
    (elf : Elf) (name : Name)
    → IsObject elf
    → Ends IsLinkError (λ symbol. Within (length elf.secs) symbol.sec) (entry_symbol elf name)
unfolding entry_symbol
entry_symbol-Ends elf name o = go (symbol_find elf name) refl
  where
    checked :
        (symbol : Sym) (p : Option ℕ)
        → symbol.sec ≡ p
        → Within (length elf.secs) symbol.sec
        → Ends IsLinkError
            (λ s. Within (length elf.secs) s.sec)
            (defined symbol (undefined_entry name) >>= λ _. ok symbol)
    checked symbol none e w = rw (Ends, e) tt
    checked symbol (some j) e w = rw (Ends, e) (subst (Within (length elf.secs)) e w)

    go :
        (p : Option ℕ)
        → symbol_find elf name ≡ p
        → Ends IsLinkError (λ symbol. Within (length elf.secs) symbol.sec) (entry_symbol elf name)
    go none e = rw (Ends, e) tt
    go (some k) e =
        let (j, symbol, same, at) = find_sym-In name 0 elf.syms k e in
        let back : j ≡ k = omega (arith, same) in
        let at_k = subst (λ i. get_elem? elf.syms i ≡ some symbol) back at in
        rw (Ends, e, at_k)
          (checked symbol symbol.sec refl
            (All-get_elem? (λ s. Within (length elf.secs) s.sec) elf.syms k symbol o.symbols at_k))

-- Behind the checks: a static executable.
IsExec : Elf → Type 0
IsExec out = IsObject out × (out.type ≡ et_exec)

link_exec-Ends :
    (opts : Options) (elf : Elf) → IsObject elf → Ends IsLinkError IsExec (link_exec opts elf)
unfolding link_exec IsExec
link_exec-Ends opts elf o =
    let placed = place_sections opts elf in
    let whole = place_sections-IsObject opts elf o in
    Ends->>= IsLinkError (λ u. Unit {0}) IsExec _ _
      (check_secs-Ends placed.syms placed.secs whole.relas)
      (λ u x.
        Ends->>= IsLinkError (λ (s : Sym). Within (length placed.secs) s.sec) IsExec _ _
          (entry_symbol-Ends placed (entry_name opts) whole)
          (λ symbol within.
            Ends->>= IsLinkError (λ (a : ℕ). Unit {0}) IsExec _ _
              (never (λ (a : ℕ). Unit {0}) _ (symbol_addr-Ends placed.secs symbol within))
              (λ entry y.
                patched (record placed { entry = entry })
                  (record { relas = whole.relas; symbols = whole.symbols }))))
  where
    never : {A : Type 0} (P : A → Type 0) (m : Outcome A) → Ends Never P m → Ends IsLinkError P m
    never P m h = Ends-weaken Never IsLinkError P P m (λ e x. elim x [ ]) (λ a x. x) h

    patched :
        (p : Elf)
        → IsObject p
        → Ends IsLinkError IsExec (apply p >>= λ out. ok (record out { type = et_exec }))
    patched p w =
        Ends->>= IsLinkError (Applied p) IsExec _ _ (never (Applied p) _ (apply-Applied p w))
          (λ out a.
            let whole = Applied-IsObject p out w a in
            (record { relas = whole.relas; symbols = whole.symbols }, refl))

merge_files-Ends :
    (read : Name → Option Elf) (out : Elf) (paths : List Name)
    → ((path : Name) (in_ : Elf) → read path ≡ some in_ → IsObject in_)
    → IsObject out
    → Ends IsLinkError IsObject (merge_files read out paths)
unfolding merge_files
merge_files-Ends read out [] h o = o
merge_files-Ends read out (path ∷ paths) h o =
    go (read path) refl (λ out' o'. merge_files-Ends read out' paths h o')
  where
    go :
        (p : Option Elf)
        → read path ≡ p
        → ((out' : Elf) → IsObject out' → Ends IsLinkError IsObject (merge_files read out' paths))
        → Ends IsLinkError IsObject (merge_files read out (path ∷ paths))
    go none e ih = rw (Ends, e) tt
    go (some in_) e ih =
        rw (Ends, e)
          (Ends->>= IsLinkError IsObject IsObject _ _
            (Ends-weaken IsMultiple IsLinkError IsObject IsObject _ IsLinkError-of_multiple
              (λ a x. x) (merge-IsObject out in_ o (h path in_ e)))
            ih)

-- What a link yields: an object, and an executable unless a relocatable object is asked for.
abbrev pub IsLinked : Options → Elf → Type 0
IsLinked opts out = IsObject out × (opts.relocatable ≡ false → out.type ≡ et_exec)

-- Link_Run over files that are objects the linker knows: it yields such an object, an ET_EXEC one unless -r is given, or
-- ends with one of its four messages: a file that cannot be read, a second definition of a global, an undefined symbol,
-- an undefined entry. It follows no null pointer, meets no relocation kind it does not know, and patches no byte outside
-- a section, whatever the -place requests and the entry are.
pub run-Ends :
    (read : Name → Option Elf) (paths : List Name) (opts : Options)
    → ((path : Name) (in_ : Elf) → read path ≡ some in_ → IsObject in_)
    → Ends IsLinkError (IsLinked opts) (run read paths opts)
unfolding run IsExec
run-Ends read paths opts h =
    Ends->>= IsLinkError IsObject (IsLinked opts) _ _
      (merge_files-Ends read (new et_rel em_x86_64) paths h (record { relas = tt; symbols = tt }))
      (λ out o. choose out o opts.relocatable refl)
  where
    choose :
        (out : Elf)
        → IsObject out
        → (b : Bool) → opts.relocatable ≡ b
        → Ends IsLinkError (IsLinked opts) (if b then ok out else link_exec opts out)
    choose out o true e = (o, λ q. cc)
    choose out o false e =
        Ends-weaken IsLinkError IsLinkError IsExec (IsLinked opts) _ (λ e x. x)
          (λ a x. (x.0, λ q. x.1)) (link_exec-Ends opts out o)
