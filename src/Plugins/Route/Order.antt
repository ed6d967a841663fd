-- ===== src/Plugins/Route/Order.antt =====
-- The order of the routes of plugins/transform/route/route.go.
use eventr.Common.{
  true, String, List, [], ◌∷◌, ◌++◌, Option, none, some, ◌⊎◌, inl, inr, not, ◌&&◌, All, All-append,
  ◌≡◌, arith, if_elim, option_elim,
}
use eventr.Common.Text.{◌==◌, contains}
use eventr.Common.Dict.{Dict, lookup, has}
use eventr.Config.Value.{Fields, Items, nil, field, end, item, find}
use eventr.Eql.Compile.{Program}
use eventr.Plugins.Filter.{as_text}
use eventr.Plugins.Route.{
  RouteError, default_route, listed_order, with_default, other_names, route_order, as_list, ordered,
  with_order, new_route, from_routes, compile_routes, object_of,
}

-- Each name in the order is that of a route.
abbrev pub Known {ℓ} : {Program : Type ℓ} → Dict Program → List String → Type 0
Known routes order = All (λ name. has name routes ≡ true) order

-- A result that is no error satisfies P.
abbrev pub IfDone {ℓ} : {E A : Type ℓ} → (A → Type 0) → E ⊎ A → Type 0
IfDone P (inl e) = Unit
IfDone P (inr a) = P a

-- The default, where it is a route, may end an order.
default-Known :
    {Program : Type 0} (routes : Dict Program) (out : List String)
    → has default_route routes ≡ true
    → Known routes out
    → Known routes (out ++ default_route ∷ [])
default-Known routes out h k = All-append (λ name. has name routes ≡ true) out _ k (h, tt)

module _ (E : Type 0) {Program : Type 0} (routes : Dict Program) where
  listed_order-Known :
      (raw : Items) (out : List String)
      → Known routes out
      → IfDone (Known routes) (listed_order {E = E} routes raw out)
  unfolding listed_order
  listed_order-Known end out k = k
  listed_order-Known (item v rest) out k =
      let skipped = listed_order-Known rest out k in
      option_elim (IfDone (Known routes)) (as_text v) _ _ (λ _. skipped)
        (λ name _.
          if_elim (IfDone (Known routes)) (name == "") _ _ (λ _. skipped)
            (λ _.
              if_elim (IfDone (Known routes)) (not (has name routes)) _ _ (λ _. tt)
                (λ there.
                  let h : has name routes ≡ true = ground arith in
                  if_elim (IfDone (Known routes)) (contains out name) _ _ (λ _. skipped)
                    (λ _.
                      listed_order-Known rest (out ++ name ∷ [])
                        (All-append (λ x. has x routes ≡ true) out _ k (h, tt))))))

  with_default-Known :
      (r : RouteError E ⊎ List String)
      → IfDone (Known routes) r
      → IfDone (Known routes) (with_default routes r)
  with_default-Known (inl e) h = tt
  with_default-Known (inr out) h =
      if_elim (IfDone (Known routes)) (has default_route routes && not (contains out default_route))
        _ _
        (λ both.
          let there : has default_route routes ≡ true = ground arith in
          default-Known routes out there h)
        (λ _. h)

  route_order-Known :
      (sort : List String → List String) (cfg : Fields)
      → Known routes (sort (other_names routes))
      → IfDone (Known routes) (route_order {E = E} routes sort cfg)
  unfolding route_order
  route_order-Known sort cfg k =
      option_elim (IfDone (Known routes)) (as_list (find "route_order" cfg)) _ _
        (λ _.
          if_elim (Known routes) (has default_route routes) _ _
            (λ there. default-Known routes _ there k) (λ _. k))
        (λ raw _. with_default-Known (listed_order routes raw []) (listed_order-Known raw [] tt))

All-weaken :
    (P Q : String → Type 0) (xs : List String) → ((x : String) → P x → Q x) → All P xs → All Q xs
All-weaken P Q [] h k = tt
All-weaken P Q (x ∷ xs) h (p, k) = (h x p, All-weaken P Q xs h k)

has_later :
    {Program : Type 0} (name : String) (p : Program) (routes : Dict Program) (j : String)
    → has j routes ≡ true
    → has j ((name, p) ∷ routes) ≡ true
unfolding lookup
has_later name p routes j h = ground arith

has_first :
    {Program : Type 0} (name : String) (p : Program) (routes : Dict Program)
    → has name ((name, p) ∷ routes) ≡ true
unfolding lookup
has_first name p routes = ground arith

other_names-Known : {Program : Type 0} (routes : Dict Program) → Known routes (other_names routes)
unfolding other_names
other_names-Known [] = tt
other_names-Known ((name, p) ∷ rest) =
    let later =
      All-weaken (λ j. has j rest ≡ true) (λ j. has j ((name, p) ∷ rest) ≡ true) _
        (has_later name p rest) (other_names-Known rest) in
    if_elim (Known ((name, p) ∷ rest)) (name == default_route) _ _ (λ _. later)
      (λ _. (has_first name p rest, later))

module _ {Expr E : Type 0} (compile : String → E ⊎ Expr) (sort : List String → List String)
    (sort_keeps : (P : String → Type 0) (xs : List String) → All P xs → All P (sort xs)) where
  with_order-Known :
      (routes : Dict (Program Expr)) (r : RouteError E ⊎ List String)
      → IfDone (Known routes) r
      → IfDone (λ c. Known c.0 c.1) (with_order compile routes r)
  with_order-Known routes (inl e) h = tt
  with_order-Known routes (inr order) h = h

  ordered-Known :
      (cfg : Fields) (r : RouteError E ⊎ Dict (Program Expr))
      → IfDone (λ c. Known c.0 c.1) (ordered compile sort cfg r)
  ordered-Known cfg (inl e) = tt
  ordered-Known cfg (inr routes) =
      with_order-Known routes _
        (route_order-Known E routes sort cfg (sort_keeps _ _ (other_names-Known routes)))

  from_routes-Known :
      (cfg : Fields) (o : Option Fields)
      → IfDone (λ c. Known c.0 c.1) (from_routes compile sort cfg o)
  unfolding from_routes
  from_routes-Known cfg none = tt
  from_routes-Known cfg (some nil) = tt
  from_routes-Known cfg (some (field name v rest)) =
      ordered-Known cfg (compile_routes compile (field name v rest))

  pub new_route-Known : (cfg : Fields) → IfDone (λ c. Known c.0 c.1) (new_route compile sort cfg)
  unfolding new_route
  new_route-Known cfg = from_routes-Known cfg (object_of (find "routes" cfg))
