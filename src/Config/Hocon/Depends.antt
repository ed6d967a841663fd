-- ===== src/Config/Hocon/Depends.antt =====
-- parseDependsOn of internal/config/hocon.go, and the errors of the mapping.
use eventr.Common.{String, List, [], ◌∷◌, ℕ, none, some}
use eventr.Config.Value.{
  Value, null, text, int, float, bool, list, object, Items, end, item, Fields, nil, field,
  as_object,
}
use eventr.Config.Types.{DependsOnEntry}
use eventr.Config.Hocon.Blocks.{map_edge_attrs}

pub data HoconError : Type 0 where
  step_not_object : String → HoconError
  stage_not_object : ℕ → HoconError
  many_keys : HoconError
  unsupported_item : Value → HoconError
  not_list_or_map : Value → HoconError
  in_step : String → HoconError → HoconError

pub data Parsed {ℓ} (A : Type ℓ) : Type ℓ where
  ok : A → Parsed A
  err : HoconError → Parsed A

abbrev pub cons_parsed {ℓ} : {A : Type ℓ} → A → Parsed (List A) → Parsed (List A)
cons_parsed x (ok xs) = ok (x ∷ xs)
cons_parsed x (err e) = err e

-- `if err != nil { return err }`, and what comes after.
abbrev pub then_parsed {ℓ κ} : {A : Type ℓ} {B : Type κ} → Parsed A → (A → Parsed B) → Parsed B
then_parsed (ok x) next = next x
then_parsed (err e) next = err e

module _ (sprint : Value → String) (split : String → List String) where
  unfoldable pub dependency : String → Value → DependsOnEntry
  unfolding map_edge_attrs
  dependency upstream attrs = record {
    upstream = upstream;
    edge = some (map_edge_attrs sprint split (as_object attrs));
  }

  -- An element of the list form.
  unfoldable pub parse_item : Value → Parsed DependsOnEntry
  unfolding dependency
  parse_item (text s) = ok (record { upstream = s; edge = none })
  parse_item (object (field k v nil)) = ok (dependency k v)
  parse_item (object nil) = err many_keys
  parse_item (object (field k v (field j w m))) = err many_keys
  parse_item null = err (unsupported_item null)
  parse_item (int n) = err (unsupported_item (int n))
  parse_item (float s n) = err (unsupported_item (float s n))
  parse_item (bool b) = err (unsupported_item (bool b))
  parse_item (list xs) = err (unsupported_item (list xs))

  unfoldable pub parse_items : Items → Parsed (List DependsOnEntry)
  unfolding parse_item
  parse_items end = ok []
  parse_items (item v xs) = then_parsed (parse_item v) (λ entry. cons_parsed entry (parse_items xs))

  unfoldable pub parse_fields : Fields → List DependsOnEntry
  unfolding dependency
  parse_fields nil = []
  parse_fields (field k v m) = dependency k v ∷ parse_fields m

  unfoldable pub parse_depends_on : Value → Parsed (List DependsOnEntry)
  unfolding parse_items parse_fields
  parse_depends_on (list xs) = parse_items xs
  parse_depends_on (object m) = ok (parse_fields m)
  parse_depends_on null = err (not_list_or_map null)
  parse_depends_on (text s) = err (not_list_or_map (text s))
  parse_depends_on (int n) = err (not_list_or_map (int n))
  parse_depends_on (float s n) = err (not_list_or_map (float s n))
  parse_depends_on (bool b) = err (not_list_or_map (bool b))
