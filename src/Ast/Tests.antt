-- ===== src/Ast/Tests.antt =====
-- A declaration and a literal, and the theorems at them.
use ivan_cc.Prelude.{List, [], ◌∷◌, ◌≤◌, Ends}
use ivan_cc.Prelude.Name.{text}
use ivan_cc.Ast.{CType, Var}
use ivan_cc.Ast.Scope.{
  new_var, declare_var, Declared, declare_var-Declared, add_string, max_strings, string_count,
  Interned, add_string-Interned,
}

-- `y` where `x` is declared.
abbrev locals : List Var
locals = new_var (text "x") CType.int 1 ∷ []

declare_var-Declared_example :
    Declared
      (text "y")
      CType.char
      2
      locals
      (declare_var (text "y") CType.char 2 locals).0
      (declare_var (text "y") CType.char 2 locals).1
declare_var-Declared_example = declare_var-Declared (text "y") CType.char 2 locals

add_string-Interned_example :
    Ends
      (λ e. max_strings ≤ string_count (text "a" ∷ []))
      (λ r. Interned (text "b") (text "a" ∷ []) r.0 r.1)
      (add_string (text "b") (text "a" ∷ []))
add_string-Interned_example = add_string-Interned (text "b") (text "a" ∷ [])
