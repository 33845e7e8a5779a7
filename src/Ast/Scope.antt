-- ===== src/Ast/Scope.antt =====
-- The locals of the function that is parsed, and the table of string literals: Ast_Locals and Ast_Strings of
-- src/ast/ast.c. The locals are a list with the last declared first, a literal is the list of its bytes.
use mathlib.Core.Option.{some-injective}
use ivan_cc.Prelude.{
  ℕ, suc, ◌≤◌, ◌<◌, true, false, not, Option, none, some, List, [], ◌∷◌, ◌++◌, ◌≡◌, ◌≢◌, refl, sym,
  ap, ◌∙◌, ◌⊎◌, Ends, inl, inr, pos, length, get_elem?, get_elem?-append_left,
  get_elem?-append_next, length-append, ltb, if◌then◌else◌, Outcome, ok, err, too_many_strings,
  Bool-cases, arith,
}
use ivan_cc.Prelude.Name.{Name, name_eq, name_eq_refl, eq_of_name_eq}
use ivan_cc.Ast.{CType, Var}

abbrev pub begin_scope : List Var
begin_scope = []

-- The loop of Ast_FindVar.
unfoldable pub find_var : Name → List Var → Option Var
find_var name [] = none
find_var name (var ∷ locals) =
    let rest = find_var name locals in if name_eq var.name name then some var else rest

abbrev pub new_var : Name → CType → ℕ → Var
new_var name type line = record { name = name; type = type; line = line; offset = pos 0 }

-- The variable, and the locals.
unfoldable pub declare_var : Name → CType → ℕ → List Var → Var × List Var
declare_var name type line locals = elim (find_var name locals) [
  | some var ↦ (var, locals)
  | none ↦ (new_var name type line, new_var name type line ∷ locals)
]

-- MAX_STRINGS.
abbrev pub max_strings : ℕ
max_strings = 1024

-- The slot, and the table.
unfoldable pub add_string : List ℕ → List (List ℕ) → Outcome (ℕ × List (List ℕ))
add_string str strings =
    if not (ltb (length strings) max_strings)
    then err (too_many_strings max_strings)
    else ok (length strings, strings ++ str ∷ [])

abbrev pub string_count : List (List ℕ) → ℕ
string_count strings = length strings

-- What a search finds has the name.
find_var_name :
    (name : Name) (locals : List Var) (var : Var)
    → find_var name locals ≡ some var
    → var.name ≡ name
unfolding find_var
find_var_name name [] var h = cc
find_var_name name (v ∷ locals) var h = elim (Bool-cases (name_eq v.name name)) [
  | inl t ↦
      ap (λ (z : Var). z.name) (some-injective _ _ (sym (rw t at h))) ∙ eq_of_name_eq v.name name t
  | inr f ↦ find_var_name name locals var (rw f at h)
]

-- No two variables have the same name.
abbrev pub Distinct : List Var → Type 0
Distinct [] = Unit
Distinct (var ∷ locals) = (find_var var.name locals ≡ none) × Distinct locals

-- `var` is the variable of the name after a declaration, `locals'` the locals.
pub record Declared (name : Name) (type : CType) (line : ℕ) (locals : List Var) (var : Var)
    (locals' : List Var) : Type 0 where
  pub named : var.name ≡ name
  pub found : find_var name locals' ≡ some var
  pub others : (other : Name) → other ≢ name → find_var other locals' ≡ find_var other locals
  pub distinct : Distinct locals → Distinct locals'
  pub kept : (old : Var) → find_var name locals ≡ some old → var ≡ old

-- Ast_DeclareVar returns a variable of the name, which Ast_FindVar then finds; what it finds for other names stays, a
-- variable that was there is kept as it was, and names stay distinct.
pub declare_var-Declared :
    (name : Name) (type : CType) (line : ℕ) (locals : List Var)
    → Declared name type line locals
        (declare_var name type line locals).0
        (declare_var name type line locals).1
unfolding declare_var find_var
declare_var-Declared name type line locals = go (find_var name locals) refl
  where
    declared : Option Var → Var × List Var
    declared (some var) = (var, locals)
    declared none = (new_var name type line, new_var name type line ∷ locals)

    go :
        (o : Option Var)
        → find_var name locals ≡ o
        → Declared name type line locals (declared o).0 (declared o).1
    go (some var) e = record {
      named = find_var_name name locals var e;
      found = e;
      others = λ other ne. refl;
      distinct = λ d. d;
      kept = λ old h. some-injective _ _ (sym e ∙ h);
    }
    go none e = record {
      named = refl;
      found = rw (find_var, name_eq_refl name) refl;
      others = λ other ne. front other (Bool-cases (name_eq name other)) ne;
      distinct = λ d. (e, d);
      kept = λ old h. cc;
    }
      where
        front :
            (other : Name)
            → (name_eq name other ≡ true) ⊎ (name_eq name other ≡ false)
            → other ≢ name
            → find_var other (new_var name type line ∷ locals) ≡ find_var other locals
        front other (inl t) ne = absurd (ne (sym (eq_of_name_eq name other t)))
        front other (inr f) ne = rw (find_var, f) refl

-- `slot` is one of the table's and holds the literal, and the table else what it held.
pub record Interned (str : List ℕ) (strings : List (List ℕ)) (slot : ℕ) (strings' : List (List ℕ))
    : Type 0 where
  pub held : get_elem? strings' slot ≡ some str
  pub kept : (i : ℕ) (s : List ℕ) → get_elem? strings i ≡ some s → get_elem? strings' i ≡ some s
  pub inside : slot < max_strings
  pub longer : string_count strings' ≡ suc (string_count strings)

-- Ast_AddString puts the literal in the slot that it returns, which is one of the MAX_STRINGS of the array, and keeps the
-- other slots; it ends with an error only when MAX_STRINGS slots are in use.
pub add_string-Interned :
    (str : List ℕ) (strings : List (List ℕ))
    → Ends
        (λ e. max_strings ≤ string_count strings)
        (λ r. Interned str strings r.0 r.1)
        (add_string str strings)
unfolding add_string
add_string-Interned str strings = elim (Bool-cases (ltb (length strings) max_strings)) [
  | inl e ↦
      rw (Ends, e)
        (record {
          held = get_elem?-append_next strings [] str;
          inside = ground arith;
          kept = get_elem?-append_left strings (str ∷ []);
          longer = omega (arith, length-append strings (str ∷ []));
        })
  | inr e ↦ rw (Ends, e) (ground arith)
]
