-- ===== src/Ld/Ends.antt =====
-- How the linker ends, from its command line to the file.
use ivan_cc.Prelude.{
  ◌≤◌, leb, ◌==◌, Bool, true, false, not, if◌then◌else◌, Option, some, List, [], ◌∷◌, ◌++◌, length,
  length-append, drop, Outcome, ok, err, Error, usage, malformed_place, too_many_places, Ends,
  Ends->>=, Ends-weaken, ◌≡◌, refl, arith, Bool-cases, inl, inr, multiple_definition,
  undefined_symbol_of, undefined_entry, unreadable,
}
use ivan_cc.Prelude.Name.{Name, text, name_eq}
use ivan_cc.Str.Chars.{take_while, strchr}
use ivan_cc.Str.Split.{starts_with}
use ivan_cc.Elf.Object.{Elf}
use ivan_cc.Elf.Relocatable.{write_file}
use ivan_cc.Link.Whole.{IsObject}
use ivan_cc.Link.Place.{Place}
use ivan_cc.Link.Exec.{run, et_exec}
use ivan_cc.Link.Runs.{IsLinkError, IsLinked, run-Ends}
use ivan_cc.Ld.Command.{
  Command, Output, max_places, parse_place, start, with_value, argument, arguments, link_command,
  main, place_command, relocatable_command, is_option, place_at, place_name,
}

-- The messages on the command line.
abbrev pub IsArgumentError : Error → Type 0
IsArgumentError usage = Unit
IsArgumentError (malformed_place spec) = Unit
IsArgumentError (too_many_places max) = Unit
IsArgumentError _ = ⊥

-- `lo_places` has room for the requests.
abbrev pub HasRoom : Command → Type 0
HasRoom s = length s.opts.places ≤ max_places

Ends-if :
    {A : Type 0} (E : Error → Type 0) (P : A → Type 0) (b : Bool) (x y : Outcome A)
    → (b ≡ true → Ends E P x)
    → (b ≡ false → Ends E P y)
    → Ends E P (if b then x else y)
Ends-if E P true x y f g = f refl
Ends-if E P false x y f g = g refl

one_more :
    (places : List Place) (place : Place)
    → leb max_places (length places) ≡ false
    → length (places ++ place ∷ []) ≤ max_places
one_more places place l = ground (arith, length-append places (place ∷ []))

place_command-HasRoom :
    (spec : Name) (s : Command) → HasRoom s → Ends IsArgumentError HasRoom (place_command spec s)
unfolding parse_place
place_command-HasRoom spec s h = go (strchr b'@' spec) refl
  where
    go : (r : Name) → strchr b'@' spec ≡ r → Ends IsArgumentError HasRoom (place_command spec s)
    go [] e = rw (Ends, e) tt
    go (at ∷ addr) e = elim (Bool-cases (leb max_places (length s.opts.places))) [
      | inl l ↦ rw (Ends, e, l) tt
      | inr l ↦
          rw (Ends, e, l)
            (one_more s.opts.places
              (place_at (place_name (take_while (λ c. not (c == b'@')) spec)) addr) l)
    ]

argument-HasRoom :
    (arg : Name) (s : Command) → HasRoom s → Ends IsArgumentError HasRoom (argument arg s)
unfolding argument
argument-HasRoom arg s h =
    Ends-if IsArgumentError HasRoom (name_eq arg (text "-r")) (ok (relocatable_command s)) _
      (λ _. h)
      (λ _.
        Ends-if IsArgumentError HasRoom (starts_with arg (text "-place="))
          (place_command (drop 7 arg) s) _ (λ _. place_command-HasRoom (drop 7 arg) s h)
          (λ _.
            Ends-if IsArgumentError HasRoom (is_option arg) (err usage)
              (ok (record s { objs = s.objs ++ arg ∷ [] })) (λ _. tt) (λ _. h)))

arguments-HasRoom :
    (args : List Name) (s : Command) → HasRoom s → Ends IsArgumentError HasRoom (arguments args s)
unfolding arguments with_value
arguments-HasRoom [] s h = h
arguments-HasRoom (arg ∷ []) s h = argument-HasRoom arg s h
arguments-HasRoom (arg ∷ next ∷ args) s h = elim (Bool-cases (name_eq arg (text "-o"))) [
  | inl o ↦ rw (Ends, o) (arguments-HasRoom args (record s { output = next }) h)
  | inr o ↦ elim (Bool-cases (name_eq arg (text "-e"))) [
    | inl e ↦
        rw (Ends, o, e)
          (arguments-HasRoom args (record s { opts = record s.opts { entry = some next } }) h)
    | inr e ↦
        rw (Ends, o, e)
          (Ends->>= IsArgumentError HasRoom HasRoom (argument arg s) _ (argument-HasRoom arg s h)
            (λ s' h'. arguments-HasRoom (next ∷ args) s' h'))
  ]
]

-- The arguments give at most 16 requests of places, as many as `lo_places` has room for, or end with a message of the
-- command line.
pub arguments-start : (args : List Name) → Ends IsArgumentError HasRoom (arguments args start)
arguments-start args = arguments-HasRoom args start (omega arith)

-- The messages that the linker may end with.
abbrev pub IsLdError : Error → Type 0
IsLdError usage = Unit
IsLdError (malformed_place spec) = Unit
IsLdError (too_many_places max) = Unit
IsLdError (multiple_definition name) = Unit
IsLdError (undefined_symbol_of name) = Unit
IsLdError (undefined_entry name) = Unit
IsLdError (unreadable path) = Unit
IsLdError _ = ⊥

argument_error : (e : Error) → IsArgumentError e → IsLdError e
argument_error usage h = tt
argument_error (malformed_place spec) h = tt
argument_error (too_many_places max) h = tt
argument_error _ h = elim h [ ]

link_error : (e : Error) → IsLinkError e → IsLdError e
link_error (multiple_definition name) h = tt
link_error (undefined_symbol_of name) h = tt
link_error (undefined_entry name) h = tt
link_error (unreadable path) h = tt
link_error _ h = elim h [ ]

-- What is written: the file of an object that the linker knows, which may be run only if it is an executable.
pub record IsWritten (out : Output) : Type 0 where
  pub elf : Elf
  pub file : out.bytes ≡ write_file elf
  pub object : IsObject elf
  pub runs : out.executable ≡ true → elf.type ≡ et_exec

link_command-IsWritten :
    (read : Name → Option Elf) (s : Command)
    → ((path : Name) (in_ : Elf) → read path ≡ some in_ → IsObject in_)
    → Ends IsLdError IsWritten (link_command read s)
unfolding link_command
link_command-IsWritten read s h =
    Ends-if IsLdError IsWritten (length s.objs == 0) (err usage) _ (λ _. tt)
      (λ _.
        Ends->>= IsLdError (IsLinked s.opts) IsWritten (run read s.objs s.opts) _
          (Ends-weaken IsLinkError IsLdError (IsLinked s.opts) (IsLinked s.opts) _ link_error
            (λ a x. x) (run-Ends read s.objs s.opts h))
          (λ e w. record {
            elf = e;
            file = refl;
            object = w.0;
            runs = λ q. w.1 (not-true s.opts.relocatable q);
          }))
  where
    not-true : (b : Bool) → not b ≡ true → b ≡ false
    not-true b q = ground arith

-- The linker, on every command line and over files that are objects it knows, writes the file of such an object, with
-- the mode of a program only if the object is an executable, or ends with a message: one of the command line, or one of
-- the four of a link.
pub main-Ends :
    (read : Name → Option Elf) (args : List Name)
    → ((path : Name) (in_ : Elf) → read path ≡ some in_ → IsObject in_)
    → Ends IsLdError IsWritten (main read args)
unfolding main
main-Ends read args h =
    Ends->>= IsLdError HasRoom IsWritten (arguments args start) _
      (Ends-weaken IsArgumentError IsLdError HasRoom HasRoom _ argument_error (λ a x. x)
        (arguments-start args))
      (λ s _. link_command-IsWritten read s h)
