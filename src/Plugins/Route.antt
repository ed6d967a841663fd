-- ===== src/Plugins/Route.antt =====
-- The route transform, plugins/transform/route/route.go. `sort` is sort.Strings, and the routes are
-- compiled in the order in which the map of them stands.
pub mod Order
pub mod Routed
use eventr.Common.{
  Bool, true, false, String, List, [], ◌∷◌, ◌++◌, Option, none, some, if◌then◌else◌, ◌⊎◌, inl, inr,
  not, ◌&&◌, ◌||◌,
}
use eventr.Common.Text.{◌==◌, contains}
use eventr.Common.Dict.{Dict, lookup, insert, has}
use eventr.Common.Outcome.{Outcome, ok, err, panic, ◌>>=◌, or_panic}
use eventr.Config.Value.{
  Value, Fields, Items, nil, field, end, item, find, put, text, list, as_object, null, int, float,
  bool, object,
}
use eventr.Message.{Message, shallow_copy}
use eventr.Eql.Program.{Bindings}
use eventr.Eql.Compile.{Program, compile_filter, eval_filter}
use eventr.Plugins.Filter.{as_text, returned, bindings_of}

pub data RouteError (E : Type 0) : Type 0 where
  routes_required : RouteError E
  not_text : String → RouteError E
  bad_route : String → E → RouteError E
  unknown_route : String → RouteError E

abbrev pub default_route : String
default_route = "_default"

-- `cfg["route_order"].([]any)`
abbrev pub as_list : Option Value → Option Items
as_list none = none
as_list (some (list xs)) = some xs
as_list (some null) = none
as_list (some (text s)) = none
as_list (some (int n)) = none
as_list (some (float s n)) = none
as_list (some (bool b)) = none
as_list (some (object m)) = none

abbrev pub object_of : Option Value → Option Fields
object_of none = none
object_of (some v) = as_object v

-- The names of the routes but for the default.
unfoldable pub other_names {ℓ} : {Program : Type ℓ} → Dict Program → List String
other_names [] = []
other_names ((name, p) ∷ rest) =
    let names = other_names rest in if name == default_route then names else name ∷ names

module _ {E : Type 0} {Program : Type 0} (routes : Dict Program) where
  -- The loop over route_order, with the names that it has put out, which are those seen.
  unfoldable pub listed_order : Items → List String → RouteError E ⊎ List String
  unfolding lookup
  listed_order end out = inr out
  listed_order (item v rest) out =
      let skipped = listed_order rest out in
      elim (as_text v) [
        | none ↦ skipped
        | some name ↦
            let added = listed_order rest (out ++ name ∷ []) in
            if name == ""
            then skipped
            else if not (has name routes)
            then inl (unknown_route name)
            else if contains out name
            then skipped
            else added
      ]

  abbrev pub with_default : RouteError E ⊎ List String → RouteError E ⊎ List String
  with_default (inl e) = inl e
  with_default (inr out) =
      if has default_route routes && not (contains out default_route)
      then inr (out ++ default_route ∷ [])
      else inr out

  unfoldable pub route_order : (List String → List String) → Fields → RouteError E ⊎ List String
  unfolding listed_order other_names lookup find
  route_order sort cfg = elim (as_list (find "route_order" cfg)) [
    | some raw ↦ with_default (listed_order raw [])
    | none ↦
        let names = sort (other_names routes) in
        inr (if has default_route routes then names ++ default_route ∷ [] else names)
  ]

module _ {Expr E : Type 0} (compile : String → E ⊎ Expr) where
  abbrev add_route :
      String
      → E ⊎ Program Expr
      → RouteError E ⊎ Dict (Program Expr)
      → RouteError E ⊎ Dict (Program Expr)
  add_route name (inl e) rest = inl (bad_route name e)
  add_route name (inr p) (inl e) = inl e
  add_route name (inr p) (inr routes) = inr (insert name p routes)

  unfoldable pub compile_routes : Fields → RouteError E ⊎ Dict (Program Expr)
  unfolding compile_filter insert
  compile_routes nil = inr []
  compile_routes (field name v rest) =
      let more = compile_routes rest in
      elim (as_text v) [
        | none ↦ inl (not_text name)
        | some s ↦ add_route name (compile_filter compile s) more
      ]

  abbrev pub with_order :
      Dict (Program Expr)
      → RouteError E ⊎ List String
      → RouteError E ⊎ (Dict (Program Expr) × List String)
  with_order routes (inl e) = inl e
  with_order routes (inr order) = inr (routes, order)

  abbrev pub ordered :
      (List String → List String)
      → Fields
      → RouteError E ⊎ Dict (Program Expr)
      → RouteError E ⊎ (Dict (Program Expr) × List String)
  ordered sort cfg (inl e) = inl e
  ordered sort cfg (inr routes) = with_order routes (route_order routes sort cfg)

  -- The routes of a configuration, where there are any.
  unfoldable pub from_routes :
      (List String → List String)
      → Fields
      → Option Fields
      → RouteError E ⊎ (Dict (Program Expr) × List String)
  unfolding compile_routes route_order
  from_routes sort cfg none = inl routes_required
  from_routes sort cfg (some nil) = inl routes_required
  from_routes sort cfg (some (field name v rest)) =
      ordered sort cfg (compile_routes (field name v rest))

  -- The factory: the routes and their order.
  unfoldable pub new_route :
      (List String → List String) → Fields → RouteError E ⊎ (Dict (Program Expr) × List String)
  unfolding from_routes find
  new_route sort cfg = from_routes sort cfg (object_of (find "routes" cfg))

module _ {Expr E : Type 0} (evaluate : Expr → Bindings → E ⊎ Value)
    (routes : Dict (Program Expr)) where
  -- The loop over the order, up to the first route that holds; "" stands for none.
  unfoldable pub first_match : List String → Bindings → Outcome E String
  unfolding lookup eval_filter
  first_match [] b = ok ""
  first_match (name ∷ order) b = do
    program ← or_panic (lookup name routes)
    holds ← returned (eval_filter evaluate program b)
    if holds then ok name else first_match order b

-- The copy with the name of its route.
unfoldable pub tagged {ℓ κ} :
    {Bytes : Type ℓ} {Handler : Type κ}
    → String
    → Message Bytes Value Handler
    → Message Bytes Value Handler
unfolding put
tagged name m = record m {
  metadata = some (elim m.metadata [
    | none ↦ put "er-route" (text name) nil
    | some entries ↦ put "er-route" (text name) entries
  ]);
}

module _ {Bytes Handler Expr E : Type 0} (decode : Option Bytes → Fields)
    (evaluate : Expr → Bindings → E ⊎ Value) (routes : Dict (Program Expr)) where
  -- Process
  unfoldable pub route_batch :
      List String
      → List (Message Bytes Value Handler)
      → Outcome E (List (Message Bytes Value Handler))
  unfolding first_match tagged bindings_of shallow_copy
  route_batch order [] = ok []
  route_batch order (m ∷ batch) = do
    let cp = shallow_copy m
    matched ← first_match evaluate routes order (bindings_of decode cp)
    rest ← route_batch order batch
    ok (if matched == "" then rest else tagged matched cp ∷ rest)
