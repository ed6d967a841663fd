-- ===== src/Eql/Compile.antt =====
-- Program, CompileFilter, CompileCondition, CompileMapping, parseStatements, splitLines and EvalFilter
-- of internal/eql/eql.go. `compile` stands for the expression library, from NewEnv on; `split` is
-- strings.Split at line ends; `match_del` and `match_assign` give the groups that delRe and assignRe
-- match.
use eventr.Common.{
  Bool, true, false, String, List, [], ◌∷◌, Option, none, some, if◌then◌else◌, ◌⊎◌, inl, inr, ◌||◌,
}
use eventr.Common.Text.{◌==◌}
use eventr.Config.Value.{Value, null, text, int, float, bool, list, object}
use eventr.Eql.Text.{has_prefix, trim_space_of}
use eventr.Eql.Program.{Statement, assign, delete, Bindings}

pub data ProgramKind : Type 0 where
  kind_filter kind_mapping kind_condition : ProgramKind

pub record Program {ℓ} (Expr : Type ℓ) : Type ℓ where
  pub kind : ProgramKind
  pub statements : List (Statement Expr)
  pub expr : Option Expr

pub data CompileError {ℓ} (E : Type ℓ) : Type ℓ where
  bad_expression : E → CompileError E
  unsupported : String → CompileError E

-- splitLines, after strings.Split
unfoldable pub keep_lines : List String → List String
unfolding trim_space_of has_prefix
keep_lines [] = []
keep_lines (raw ∷ rest) =
    let line = trim_space_of raw in
    let kept = keep_lines rest in if line == "" || has_prefix "#" line then kept else line ∷ kept

-- The value of a filter: `val.Value().(bool)`, and false for any other value.
abbrev as_bool : Value → Bool
as_bool (bool b) = b
as_bool null = false
as_bool (text s) = false
as_bool (int n) = false
as_bool (float s n) = false
as_bool (list xs) = false
as_bool (object m) = false

abbrev truth {ℓ} : {E : Type ℓ} → E ⊎ Value → E ⊎ Bool
truth (inl e) = inl e
truth (inr v) = inr (as_bool v)

-- EvalFilter: a program without an expression holds.
unfoldable pub eval_filter {ℓ κ} :
    {Expr : Type ℓ} {E : Type κ}
    → (Expr → Bindings → E ⊎ Value)
    → Program Expr
    → Bindings
    → E ⊎ Bool
eval_filter evaluate p b = elim p.expr [ none ↦ inr true | some e ↦ truth (evaluate e b) ]

module _ {ℓ κ} {Expr : Type ℓ} {E : Type κ} (compile : String → E ⊎ Expr) where
  abbrev filter_of : ProgramKind → E ⊎ Expr → E ⊎ Program Expr
  filter_of kind (inl e) = inl e
  filter_of kind (inr expr) = inr (record { kind = kind; statements = []; expr = some expr })

  unfoldable pub compile_filter : String → E ⊎ Program Expr
  unfolding trim_space_of
  compile_filter dsl = filter_of kind_filter (compile (trim_space_of dsl))

  abbrev as_condition : E ⊎ Program Expr → E ⊎ Program Expr
  as_condition (inl e) = inl e
  as_condition (inr p) = inr (record p { kind = kind_condition })

  unfoldable pub compile_condition : String → E ⊎ Program Expr
  unfolding trim_space_of compile_filter
  compile_condition dsl =
      if trim_space_of dsl == ""
      then inr (record { kind = kind_condition; statements = []; expr = none })
      else as_condition (compile_filter dsl)

  module _ (split : String → List String) (match_del : String → Option String)
      (match_assign : String → Option (String × String)) where
    -- A statement and the statements after it, unless one of them failed.
    abbrev before :
        Statement Expr
        → CompileError E ⊎ List (Statement Expr)
        → CompileError E ⊎ List (Statement Expr)
    before s (inl e) = inl e
    before s (inr out) = inr (s ∷ out)

    abbrev assignment :
        String
        → E ⊎ Expr
        → CompileError E ⊎ List (Statement Expr)
        → CompileError E ⊎ List (Statement Expr)
    assignment path (inl e) rest = inl (bad_expression e)
    assignment path (inr expr) rest = before (assign (trim_space_of path) expr) rest

    unfoldable pub parse_lines : List String → CompileError E ⊎ List (Statement Expr)
    unfolding trim_space_of
    parse_lines [] = inr []
    parse_lines (line ∷ lines) =
        let rest = parse_lines lines in
        elim (match_del line) [
          | some path ↦ before (delete (trim_space_of path)) rest
          | none ↦ elim (match_assign line) [
            | some (path, expr) ↦ assignment path (compile expr) rest
            | none ↦ inl (unsupported line)
          ]
        ]

    abbrev mapping_of : CompileError E ⊎ List (Statement Expr) → CompileError E ⊎ Program Expr
    mapping_of (inl e) = inl e
    mapping_of (inr statements) =
        inr (record { kind = kind_mapping; statements = statements; expr = none })

    unfoldable pub compile_mapping : String → CompileError E ⊎ Program Expr
    unfolding keep_lines parse_lines
    compile_mapping dsl = mapping_of (parse_lines (keep_lines (split dsl)))
