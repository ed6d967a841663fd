-- ===== src/Eql.antt =====
-- setPath, delPath and splitPath of internal/eql/eql.go: writes into nested maps. `split` is
-- strings.Split at dots. No two places of the tree share a map.
pub mod Text
pub mod Heap
pub mod Program
pub mod Compile
pub mod Paths
pub mod Deletes
use eventr.Common.{String, List, [], ◌∷◌, Option, none, some, if◌then◌else◌}
use eventr.Common.Text.{◌==◌}
use eventr.Config.Value.{Value, Fields, nil, object, find, at, put, remove, as_object}

-- `next, ok := cur[part].(map[string]any)`, and a new map where it is none.
abbrev pub next_map : Option Fields → Fields
next_map none = nil
next_map (some m) = m

-- The loop of setPath over the parts.
unfoldable pub set_parts : List String → Value → Fields → Fields
unfolding put
set_parts [] value cur = cur
set_parts (part ∷ []) value cur = put part value cur
set_parts (part ∷ p ∷ parts) value cur =
    put part (object (set_parts (p ∷ parts) value (next_map (as_object (at part cur))))) cur

-- The loop of delPath over the parts.
unfoldable pub del_parts : List String → Fields → Fields
unfolding put remove
del_parts [] cur = cur
del_parts (part ∷ []) cur = remove part cur
del_parts (part ∷ p ∷ parts) cur = elim (as_object (at part cur)) [
  | none ↦ cur
  | some next ↦ put part (object (del_parts (p ∷ parts) next)) cur
]

module _ (split : String → List String) where
  unfoldable pub split_path : String → List String
  split_path path = if path == "" then [] else split path

  unfoldable pub set_path : Fields → String → Value → Fields
  unfolding split_path set_parts
  set_path root path value = if path == "" then root else set_parts (split_path path) value root

  unfoldable pub del_path : Fields → String → Fields
  unfolding split_path del_parts
  del_path root path = del_parts (split_path path) root
