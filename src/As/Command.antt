-- ===== src/As/Command.antt =====
-- The main function of src/as.c and As_Assemble. File_GetContent is a parameter, and the file that is written is a value;
-- a failure to write it is not modelled.
use ivan_cc.Prelude.{
  ℕ, ◌==◌, Bool, false, if◌then◌else◌, Option, none, some, List, [], ◌∷◌, Outcome, ok, err, usage,
  unreadable, ◌>>=◌,
}
use ivan_cc.Prelude.Name.{Name, text, name_eq}
use ivan_cc.Str.Extension.{change_or_append_ext}
use ivan_cc.Elf.Relocatable.{write_file}
use ivan_cc.Enc.Object.{build_object}
use ivan_cc.Txt.Line.{parse}

-- As_Assemble, from the text to the bytes of the object.
unfoldable pub assemble : Name → Outcome (List ℕ)
unfolding write_file
assemble t = parse t >>= build_object >>= λ e. ok (write_file e.out)

pub record Command : Type 0 where
  pub output : Option Name
  pub input : Option Name

abbrev pub start : Command
start = record { output = none; input = none }

-- `-` alone is an input.
abbrev pub is_option : Name → Bool
is_option (c ∷ d ∷ cs) = c == b'-'
is_option _ = false

unfoldable pub argument : Name → Command → Outcome Command
argument arg s = if is_option arg then err usage else ok (record s { input = some arg })

-- The loop over the arguments.
unfoldable pub arguments : List Name → Command → Outcome Command
unfolding argument
arguments [] s = ok s
arguments (arg ∷ []) s = argument arg s
arguments (arg ∷ next ∷ args) s = elim (if name_eq arg (text "-o") then some next else none) [
  | some output ↦ arguments args (record s { output = some output })
  | none ↦ argument arg s >>= λ s'. arguments (next ∷ args) s'
]

abbrev pub output_of : Option Name → Name → Name
output_of none input = change_or_append_ext input (text ".o")
output_of (some output) input = output

-- The path and the bytes of the file that is written.
unfoldable pub assemble_file : (Name → Option Name) → Option Name → Name → Outcome (Name × List ℕ)
unfolding change_or_append_ext assemble
assemble_file get_content output input = elim (get_content input) [
  | none ↦ err (unreadable input)
  | some t ↦ assemble t >>= λ bytes. ok (output_of output input, bytes)
]

unfoldable pub main : (Name → Option Name) → List Name → Outcome (Name × List ℕ)
unfolding arguments assemble_file
main get_content args = arguments args start >>= λ s. elim s.input [
  | none ↦ err usage
  | some input ↦ assemble_file get_content s.output input
]
