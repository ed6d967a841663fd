-- ===== src/Eql/Program/Shared.antt =====
-- An assignment of internal/eql/eql.go in the copy that the map transform
-- (plugins/transform/map/map.go) makes of a message.
use eventr.Common.{
  true, String, List, ◌<◌, Option, none, some, ◌⊎◌, ◌≡◌, ◌≢◌, refl, ap, ◌∙◌, arith, if_elim,
}
use eventr.Common.Text.{◌==◌}
use eventr.Config.Value.{Value, Fields}
use eventr.Message.{Message, shallow_copy, ensure_writable, set_parsed_data}
use eventr.Eql.{set_path}
use eventr.Eql.Text.{has_prefix, trim_root}
use eventr.Eql.Heap.{
  Ref, Heap, read, alloc, Data, map_at, other, value_of, deep_copy, read-write_same, read-alloc,
}
use eventr.Eql.Program.{
  References, EqlError, Context, make_writable, set_data, ensure_map, assign_below, execute_assign,
}

-- The context of a copy of a message whose decoded value is the map under an address.
abbrev pub copy_context {ℓ κ} :
    {Bytes : Type ℓ} {Handler : Type κ}
    → Message Bytes Data Handler
    → Ref
    → Option Ref
    → Option Ref
    → Heap
    → Context Bytes Handler
copy_context parent a input meta heap = record {
  msg = some (shallow_copy (record parent { parsed_data = some (map_at a) }));
  input = input;
  payload = some a;
  meta = meta;
  heap = heap;
}

abbrev pub data_of {ℓ κ} :
    {Bytes : Type ℓ} {Handler : Type κ} → Option (Message Bytes Data Handler) → Option Data
data_of none = none
data_of (some m) = m.parsed_data

module _ {ℓ κ μ ν} {Bytes : Type ℓ} {Handler : Type κ} {Expr : Type μ} {E : Type ν}
    (evaluate : Expr → References → E ⊎ Data) (split : String → List String) where
  abbrev Shares : Ref → Fields → Context Bytes Handler × Option (EqlError E) → Type 0
  Shares a m r = (read a r.0.heap ≡ m) × (data_of r.0.msg ≡ some (map_at a))

  -- In the copy of a message whose decoded value is a map, an assignment below the payload writes
  -- to that very map, which the message shares, and the decoded value of the copy is that map
  -- again.
  pub assign_below_shared :
      (parent : Message Bytes Data Handler) (a : Ref) (input meta : Option Ref) (heap : Heap)
      (path : String) (v : Value)
      → a < heap.next
      → has_prefix "payload" path ≡ true
      → path ≢ "payload"
      → let r =
          execute_assign evaluate split path (other v) (copy_context parent a input meta heap) in
        (read a r.0.heap ≡ set_path split (read a heap) (trim_root path "payload") v)
        × (data_of r.0.msg ≡ some (map_at a))
  unfolding execute_assign make_writable ensure_writable deep_copy alloc assign_below value_of
      ensure_map set_data set_parsed_data shallow_copy
  assign_below_shared parent a input meta heap path v l h ne =
      let m = set_path split (read a heap) (trim_root path "payload") v in
      if_elim (Shares a m) (has_prefix "payload" path) _ _
        (λ _.
          if_elim (Shares a m) (path == "payload") _ _ (λ e. absurd (ground arith))
            (λ _. (
              read-write_same a _ (alloc (read a heap) heap).1
                  ∙ ap (λ x. set_path split x (trim_root path "payload") v)
                      (read-alloc (read a heap) heap a l),
              refl,
            )))
        (λ e. absurd (ground arith))
