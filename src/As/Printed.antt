-- ===== src/As/Printed.antt =====
-- The assembler on what `cc -S` prints.
use ivan_cc.Prelude.{
  ℕ, false, Option, none, some, List, [], ◌∷◌, map, All, ◌≡◌, ap, ◌∙◌, refl, Outcome, ok, err,
  unreadable, ◌>>=◌,
}
use ivan_cc.Prelude.Name.{Name, text}
use ivan_cc.Str.Extension.{change_or_append_ext}
use ivan_cc.Asm.Types.{Item}
use ivan_cc.Elf.Relocatable.{write_file}
use ivan_cc.Enc.Object.{Enc, build_object}
use ivan_cc.Txt.Write.{write}
use ivan_cc.Txt.Printable.{Prints}
use ivan_cc.Txt.Assembled.{noted, IsWhole, build_object-write}
use ivan_cc.As.Command.{main, arguments, argument, assemble, assemble_file, is_option}

-- What `cc -c` writes: the file of the object of the items, at a path.
abbrev pub compiled : Name → List Item → Outcome (Name × List ℕ)
compiled path items = build_object items >>= λ e. ok (path, write_file e.out)

assemble_file-write :
    (get_content : Name → Option Name) (input : Name) (items : List Item)
    → get_content input ≡ some (write items)
    → All Prints items
    → All IsWhole items
    → assemble_file get_content none input
      ≡ compiled (change_or_append_ext input (text ".o")) (map noted items)
unfolding assemble_file assemble
assemble_file-write get_content input items e p w =
    ap (λ c. elim c [ none ↦ err (unreadable input) | some t ↦ assemble t >>= named ]) e
    ∙ (ap (λ r. r >>= (λ e. ok (write_file e.out)) >>= named) (build_object-write items p w)
        ∙ files (build_object (map noted items)))
  where
    named : List ℕ → Outcome (Name × List ℕ)
    named bytes = ok (change_or_append_ext input (text ".o"), bytes)

    files :
        (r : Outcome Enc)
        → (r >>= (λ e. ok (write_file e.out)) >>= named) ≡ (r >>= λ e. named (write_file e.out))
    files (ok e) = refl
    files (err x) = refl

-- `as` on a file that holds what the writer prints for printable items, whose destinations carry no width of an access
-- and whose runs of bytes are not empty, writes the file that `cc -c` writes for the items, where the directive for the
-- stack has become an empty section, or ends with the same error; its path is the input's with the extension .o.
pub main-write :
    (get_content : Name → Option Name) (input : Name) (items : List Item)
    → is_option input ≡ false
    → get_content input ≡ some (write items)
    → All Prints items
    → All IsWhole items
    → main get_content (input ∷ [])
      ≡ compiled (change_or_append_ext input (text ".o")) (map noted items)
unfolding main arguments argument
main-write get_content input items o e p w =
    rw o (assemble_file-write get_content input items e p w)
