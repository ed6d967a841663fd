-- ===== src/Config/Hocon/Deps.antt =====
-- The list form and the map form of depends_on (internal/config/hocon.go) say the same.
use eventr.Common.{String, List, ◌≡◌, refl, ap}
use eventr.Config.Value.{Value, list, object, Items, end, item, Fields, nil, field}
use eventr.Config.Hocon.Depends.{ok, cons_parsed, parse_items, parse_fields, parse_depends_on}

-- A map as the list of its entries, each an object of one key.
abbrev pub singletons : Fields → Items
singletons nil = end
singletons (field k v m) = item (object (field k v nil)) (singletons m)

module _ (sprint : Value → String) (split : String → List String) where
  parse_items-singletons :
      (m : Fields) → parse_items sprint split (singletons m) ≡ ok (parse_fields sprint split m)
  unfolding parse_items parse_fields
  parse_items-singletons nil = refl
  parse_items-singletons (field k v m) = ap (cons_parsed _) (parse_items-singletons m)

  -- depends_on as a map gives the same dependencies, in the order of the map, as depends_on as a list
  -- of the objects that hold one of its entries each.
  pub parse_depends_on-singletons :
      (m : Fields)
      → parse_depends_on sprint split (list (singletons m))
        ≡ parse_depends_on sprint split (object m)
  unfolding parse_depends_on
  parse_depends_on-singletons m = parse_items-singletons m
