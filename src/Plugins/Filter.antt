-- ===== src/Plugins/Filter.antt =====
-- The filter transform, plugins/transform/filter/filter.go, and the bindings that it shares with the
-- route transform (plugins/transform/route/route.go). `decode` is json.Unmarshal of a payload into a
-- map, which is empty where that fails; `compile` and `evaluate` stand for the expression library.
use eventr.Common.{String, List, [], ◌∷◌, Option, none, some, if◌then◌else◌, ◌⊎◌, inl, inr}
use eventr.Common.Text.{◌==◌}
use eventr.Common.Outcome.{Outcome, ok, err, ◌>>=◌}
use eventr.Config.Value.{
  Value, Fields, nil, find, as_object, null, text, int, float, bool, list, object,
}
use eventr.Message.{Message}
use eventr.Eql.Program.{Bindings}
use eventr.Eql.Compile.{Program, compile_filter, eval_filter}

-- `v.(string)`
abbrev pub as_text : Value → Option String
as_text (text s) = some s
as_text null = none
as_text (int n) = none
as_text (float s n) = none
as_text (bool b) = none
as_text (list xs) = none
as_text (object m) = none

-- A missing entry, or one of another kind, reads as "".
abbrev text_or_empty : Option Value → String
text_or_empty none = ""
text_or_empty (some v) = elim (as_text v) [ none ↦ "" | some s ↦ s ]

abbrev or_nil : Option Fields → Fields
or_nil none = nil
or_nil (some m) = m

-- The error of an evaluation.
abbrev pub returned {ℓ κ} : {E : Type ℓ} {A : Type κ} → E ⊎ A → Outcome E A
returned (inl e) = err e
returned (inr a) = ok a

module _ {Bytes Handler : Type 0} (decode : Option Bytes → Fields) where
  unfoldable pub payload_of : Message Bytes Value Handler → Fields
  payload_of m = elim m.parsed_data [
    | none ↦ decode m.payload
    | some v ↦ elim (as_object v) [ none ↦ nil | some fields ↦ fields ]
  ]

  unfoldable pub bindings_of : Message Bytes Value Handler → Bindings
  unfolding payload_of
  bindings_of m = record {
    payload = payload_of m;
    metadata = or_nil m.metadata;
    input = payload_of m;
  }

module _ {Expr E : Type 0} (compile : String → E ⊎ Expr) where
  -- The factory: none is "dsl is required".
  unfoldable pub new_filter : Fields → Option E ⊎ Program Expr
  unfolding find compile_filter
  new_filter cfg =
      let dsl = text_or_empty (find "dsl" cfg) in
      if dsl == ""
      then inl none
      else elim (compile_filter compile dsl) [ inl e ↦ inl (some e) | inr p ↦ inr p ]

module _ {Bytes Handler Expr E : Type 0} (decode : Option Bytes → Fields)
    (evaluate : Expr → Bindings → E ⊎ Value) where
  -- Process
  unfoldable pub filter_batch :
      Program Expr
      → List (Message Bytes Value Handler)
      → Outcome E (List (Message Bytes Value Handler))
  unfolding eval_filter bindings_of
  filter_batch program [] = ok []
  filter_batch program (m ∷ batch) = do
    holds ← returned (eval_filter evaluate program (bindings_of decode m))
    rest ← filter_batch program batch
    ok (if holds then m ∷ rest else rest)
