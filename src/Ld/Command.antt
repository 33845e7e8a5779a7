-- ===== src/Ld/Command.antt =====
-- The main function of src/ld.c and what it calls. Elf_Read of the inputs is a parameter, and the file that Elf_Write and
-- chmod leave is a value; a failure to write it is not modelled.
use ivan_cc.Prelude.{
  ℕ, leb, ◌==◌, Bool, true, false, not, ◌||◌, if◌then◌else◌, Option, none, some, List, [], ◌∷◌,
  ◌++◌, length, drop, Outcome, ok, err, usage, malformed_place, too_many_places, ◌>>=◌,
}
use ivan_cc.Prelude.Name.{Name, text, name_eq}
use ivan_cc.Str.Chars.{take_while, strchr}
use ivan_cc.Str.Split.{starts_with}
use ivan_cc.Str.Number.{strtoull}
use ivan_cc.Elf.Object.{Elf}
use ivan_cc.Elf.Relocatable.{write_file}
use ivan_cc.Link.Place.{Place, Options}
use ivan_cc.Link.Exec.{run}

-- LINK_MAX_PLACE.
abbrev pub max_places : ℕ
max_places = 16

-- LD_DEFAULT_OUTPUT.
abbrev default_output : Name
default_output = text "a.out"

-- Ld_PlaceName.
unfoldable pub place_name : Name → Name
place_name spec =
    if name_eq spec (text "text")
    then text ".text"
    else if name_eq spec (text "data") || name_eq spec (text "rodata")
    then text ".rodata"
    else spec

abbrev pub place_at : Name → Name → Place
place_at name addr = record { name = name; addr = strtoull addr }

abbrev add_place : Place → Options → Options
add_place place opts = record opts { places = opts.places ++ place ∷ [] }

-- Ld_ParsePlace: the name is in front of the first `@`.
unfoldable pub parse_place : Name → Options → Outcome Options
unfolding place_name
parse_place spec opts = elim (strchr b'@' spec) [
  | [] ↦ err (malformed_place spec)
  | at ∷ addr ↦
      if leb max_places (length opts.places)
      then err (too_many_places max_places)
      else ok (add_place (place_at (place_name (take_while (λ c. not (c == b'@')) spec)) addr) opts)
]

-- What main keeps of the arguments.
pub record Command : Type 0 where
  pub output : Name
  pub opts : Options
  pub objs : List Name

abbrev pub start : Command
start = record {
  output = default_output;
  opts = record { entry = none; relocatable = false; places = [] };
  objs = [];
}

-- An option that takes the argument behind it.
unfoldable pub with_value : Name → Option (Name → Command → Command)
with_value arg =
    if name_eq arg (text "-o")
    then some (λ value s. record s { output = value })
    else if name_eq arg (text "-e")
    then some (λ value s. record s { opts = record s.opts { entry = some value } })
    else none

abbrev pub is_option : Name → Bool
is_option [] = false
is_option (c ∷ cs) = c == b'-'

abbrev pub relocatable_command : Command → Command
relocatable_command s = record s { opts = record s.opts { relocatable = true } }

abbrev pub place_command : Name → Command → Outcome Command
place_command spec s = do opts ← parse_place spec s.opts; ok (record s { opts = opts })

-- The other branches of the loop.
unfoldable pub argument : Name → Command → Outcome Command
argument arg s =
    if name_eq arg (text "-r")
    then ok (relocatable_command s)
    else if starts_with arg (text "-place=")
    then place_command (drop 7 arg) s
    else if is_option arg
    then err usage
    else ok (record s { objs = s.objs ++ arg ∷ [] })

-- The loop over the arguments.
unfoldable pub arguments : List Name → Command → Outcome Command
unfolding with_value argument
arguments [] s = ok s
arguments (arg ∷ []) s = argument arg s
arguments (arg ∷ next ∷ args) s = elim (with_value arg) [
  | some set ↦ arguments args (set next s)
  | none ↦ argument arg s >>= λ s'. arguments (next ∷ args) s'
]

-- The file that is written, and whether it gets LD_MODE.
pub record Output : Type 0 where
  pub path : Name
  pub bytes : List ℕ
  pub executable : Bool

-- Link_Run and the file of its result.
unfoldable pub link_command : (Name → Option Elf) → Command → Outcome Output
unfolding run
link_command read s =
    if length s.objs == 0
    then err usage
    else run read s.objs s.opts >>= λ e.
        ok (record { path = s.output; bytes = write_file e; executable = not s.opts.relocatable })

unfoldable pub main : (Name → Option Elf) → List Name → Outcome Output
unfolding arguments link_command
main read args = arguments args start >>= λ s. link_command read s
