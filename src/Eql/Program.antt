-- ===== src/Eql/Program.antt =====
-- EvalMapping, EvalFilter and the Execute methods of internal/eql/eql.go, and MsgAdapter of
-- internal/eql/msgadapter.go. `evaluate` is the evaluation of a compiled expression by the expression
-- library, and `split` is strings.Split at dots. An expression may give one of the maps that it sees
-- by reference; a map that is stored below another one is stored as a copy.
pub mod Aliases
pub mod Shared
use eventr.Common.{
  Bool, true, false, String, List, [], ◌∷◌, Option, none, some, if◌then◌else◌, ◌⊎◌, inl, inr,
}
use eventr.Common.Text.{◌==◌}
use eventr.Config.Value.{Value, Fields, nil, object, as_object}
use eventr.Message.{Message, ensure_writable, set_parsed_data}
use eventr.Eql.{set_path, del_path}
use eventr.Eql.Text.{has_prefix, trim_root, trim_space_of}
use eventr.Eql.Heap.{
  Ref, Heap, read, write, alloc, Data, map_at, nil_map, other, value_of, deep_copy,
}

pub data Statement {ℓ} (Expr : Type ℓ) : Type ℓ where
  assign : String → Expr → Statement Expr
  delete : String → Statement Expr

-- The maps that the expression of a filter or a route sees, which no such expression changes.
pub record Bindings : Type 0 where
  pub payload : Fields
  pub metadata : Fields
  pub input : Fields

-- What the expressions of a program see, by reference: bindings.
pub record References : Type 0 where
  pub payload : Option Ref
  pub metadata : Option Ref
  pub input : Option Ref
  pub heap : Heap

pub data EqlError {ℓ} (E : Type ℓ) : Type ℓ where
  evaluation : E → EqlError E
  not_a_map : EqlError E
  bad_assignment : EqlError E
  bad_deletion : EqlError E
  nil_map_panic : EqlError E

-- EvalContext, with the heap that its maps lie in.
pub record Context {ℓ κ} (Bytes : Type ℓ) (Handler : Type κ) : Type (ℓ ⊔ κ) where
  pub msg : Option (Message Bytes Data Handler)
  pub input : Option Ref
  pub payload : Option Ref
  pub meta : Option Ref
  pub heap : Heap

-- ensureMap
unfoldable pub ensure_map : Option Ref → Heap → Ref × Heap
unfolding alloc
ensure_map none h = alloc nil h
ensure_map (some a) h = (a, h)

module _ {ℓ κ} {Bytes : Type ℓ} {Handler : Type κ} where
  unfoldable pub bindings : Context Bytes Handler → References
  bindings c = record { payload = c.payload; metadata = c.meta; input = c.input; heap = c.heap }

  -- `if ctx.Msg != nil { ctx.Msg.EnsureWritable() }`
  unfoldable pub make_writable : Context Bytes Handler → Context Bytes Handler
  unfolding ensure_writable
  make_writable c = elim c.msg [
    | none ↦ c
    | some m ↦
        let (m', heap) = ensure_writable deep_copy m c.heap in
        record c { msg = some m'; heap = heap }
  ]

  -- `if ctx.Msg != nil { ctx.Msg.SetParsedData(m) }`
  unfoldable pub set_data : Option Ref → Context Bytes Handler → Context Bytes Handler
  unfolding set_parsed_data
  set_data r c = elim c.msg [
    | none ↦ c
    | some m ↦ record c {
      msg = some (set_parsed_data (some (elim r [ none ↦ nil_map | some a ↦ map_at a ])) m);
    }
  ]

module _ {ℓ κ μ ν} {Bytes : Type ℓ} {Handler : Type κ} {Expr : Type μ} {E : Type ν}
    (evaluate : Expr → References → E ⊎ Data) (split : String → List String) where
  -- A map that the expression made.
  unfoldable pub assign_fresh :
      Option Fields → Context Bytes Handler → Context Bytes Handler × Option (EqlError E)
  unfolding alloc set_data
  assign_fresh none c = (c, some not_a_map)
  assign_fresh (some m) c =
      let (a, heap) = alloc m c.heap in
      let c₁ = set_data (some a) (record c { heap = heap }) in
      (record c₁ { payload = some a }, none)

  -- `payload = v`, where v must be a map. The map of the expression becomes the payload itself.
  unfoldable pub assign_payload :
      Data → Context Bytes Handler → Context Bytes Handler × Option (EqlError E)
  unfolding assign_fresh set_data
  assign_payload (map_at a) c =
      let c₁ = set_data (some a) c in (record c₁ { payload = some a }, none)
  assign_payload nil_map c = let c₁ = set_data none c in (record c₁ { payload = none }, none)
  assign_payload (other v) c = assign_fresh (as_object v) c

  -- `payload.path = v`
  unfoldable pub assign_below :
      String → Value → Context Bytes Handler → Context Bytes Handler × Option (EqlError E)
  unfolding ensure_map write read set_path set_data
  assign_below path v c =
      let (root, heap) = ensure_map c.payload c.heap in
      let heap₁ = write root (set_path split (read root heap) path v) heap in
      let c₁ = set_data (some root) (record c { heap = heap₁ }) in
      (record c₁ { payload = some root }, none)

  -- `metadata.path = v`: a write to a nil map panics.
  unfoldable pub assign_meta :
      String → Value → Context Bytes Handler → Context Bytes Handler × Option (EqlError E)
  unfolding write read set_path
  assign_meta path v c = elim c.meta [
    | none ↦ (c, if path == "" then none else some nil_map_panic)
    | some a ↦ (record c { heap = write a (set_path split (read a c.heap) path v) c.heap }, none)
  ]

  unfoldable pub execute_assign :
      String → Data → Context Bytes Handler → Context Bytes Handler × Option (EqlError E)
  unfolding make_writable value_of assign_payload assign_below assign_meta
  execute_assign path v c =
      let c₁ = make_writable c in
      if has_prefix "payload" path
      then (if path == "payload"
          then assign_payload v c₁
          else assign_below (trim_root path "payload") (value_of v c₁.heap) c₁)
      else if has_prefix "metadata" path
      then assign_meta (trim_root path "metadata") (value_of v c₁.heap) c₁
      else (c₁, some bad_assignment)

  -- A delete below the payload of a context: a nil payload stays nil, and then the decoded value is a nil map.
  unfoldable pub delete_below : String → Context Bytes Handler → Context Bytes Handler
  unfolding write read del_path set_data
  delete_below path c = elim c.payload [
    | none ↦ set_data none c
    | some a ↦
        set_data (some a) (record c { heap = write a (del_path split (read a c.heap) path) c.heap })
  ]

  unfoldable pub delete_meta : String → Context Bytes Handler → Context Bytes Handler
  unfolding write read del_path
  delete_meta path c = elim c.meta [
    | none ↦ c
    | some a ↦ record c { heap = write a (del_path split (read a c.heap) path) c.heap }
  ]

  unfoldable pub execute_delete :
      String → Context Bytes Handler → Context Bytes Handler × Option (EqlError E)
  unfolding make_writable delete_below delete_meta
  execute_delete raw c =
      let c₁ = make_writable c in
      let path = trim_space_of raw in
      if has_prefix "payload" path
      then (delete_below (trim_root path "payload") c₁, none)
      else if has_prefix "metadata" path
      then (delete_meta (trim_root path "metadata") c₁, none)
      else (c₁, some bad_deletion)

  -- An assignment, after its expression was evaluated.
  unfoldable pub assign_result :
      String → Context Bytes Handler → E ⊎ Data → Context Bytes Handler × Option (EqlError E)
  unfolding execute_assign
  assign_result path c (inl e) = (c, some (evaluation e))
  assign_result path c (inr v) = execute_assign path v c

  -- The Execute methods.
  unfoldable pub execute :
      Statement Expr → Context Bytes Handler → Context Bytes Handler × Option (EqlError E)
  unfolding bindings assign_result execute_delete
  execute (assign path expr) c = assign_result path c (evaluate expr (bindings c))
  execute (delete path) c = execute_delete path c

  -- What follows a statement, unless it failed.
  abbrev pub unless_failed :
      (Context Bytes Handler → Context Bytes Handler × Option (EqlError E))
      → Context Bytes Handler × Option (EqlError E)
      → Context Bytes Handler × Option (EqlError E)
  unless_failed next (c, none) = next c
  unless_failed next (c, some e) = (c, some e)

  unfoldable pub eval_mapping :
      List (Statement Expr) → Context Bytes Handler → Context Bytes Handler × Option (EqlError E)
  unfolding execute
  eval_mapping [] c = (c, none)
  eval_mapping (s ∷ statements) c = unless_failed (eval_mapping statements) (execute s c)
