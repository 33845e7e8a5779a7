-- ===== src/Ld/Tests.antt =====
-- A command line of the linker, and the theorems at it.
use mathlib.Core.Path.{subst}
use mathlib.Core.Option.{some-injective}
use ivan_cc.Prelude.{
  Option, none, some, List, [], ◌∷◌, ◌≡◌, refl, ok, err, false, malformed_place, usage, Ends, arith,
}
use ivan_cc.Prelude.Name.{Name, text}
use ivan_cc.Elf.Object.{Elf, empty_section}
use ivan_cc.Link.Whole.{IsObject}
use ivan_cc.Str.Number.{strtoull, unsigned_number, magnitude}
use ivan_cc.Str.Chars.{drop_while, take_while, is_space}
use ivan_cc.Str.Split.{starts_with}
use ivan_cc.Ld.Command.{start, arguments, argument, with_value, parse_place, place_name, main}
use ivan_cc.Ld.Ends.{IsArgumentError, HasRoom, IsLdError, IsWritten, arguments-start, main-Ends}

abbrev object : Elf
object = record {
  type = 1;
  machine = 62;
  entry = 0;
  secs = record (empty_section (text ".text") 1 6) { bytes = 0xc3 ∷ [] } ∷ [];
  syms = record { name = text "_start"; sec = some 0; value = 0; bind = 1; type = 2 } ∷ [];
}

object-IsObject : IsObject object
object-IsObject = record { relas = (tt, tt); symbols = (omega arith, tt) }

abbrev files : Name → Option Elf
files path = some object

files-IsObject : (path : Name) (in_ : Elf) → files path ≡ some in_ → IsObject in_
files-IsObject path in_ h = subst IsObject (some-injective _ _ h) object-IsObject

abbrev line : List Name
line = text "-o" ∷ text "x" ∷ text "-place=data@0x10" ∷ text "a.o" ∷ []

line_run :
    arguments line start
    ≡ ok (record {
      output = text "x";
      opts = record {
        entry = none;
        relocatable = false;
        places = record { name = text ".rodata"; addr = 16 } ∷ [];
      };
      objs = text "a.o" ∷ [];
    })
unfolding starts_with arguments argument with_value parse_place place_name strtoull unsigned_number
    magnitude drop_while take_while is_space
line_run = refl

malformed_run : arguments (text "-place=text" ∷ []) start ≡ err (malformed_place (text "text"))
unfolding arguments argument parse_place drop_while starts_with
malformed_run = refl

-- `-o` with nothing behind it is no option.
usage_run : arguments (text "-o" ∷ []) start ≡ err usage
unfolding arguments argument starts_with
usage_run = refl

arguments-start_example : Ends IsArgumentError HasRoom (arguments line start)
arguments-start_example = arguments-start line

main-Ends_example : Ends IsLdError IsWritten (main files line)
main-Ends_example = main-Ends files line files-IsObject
