-- ===== src/Plugins/Route/Routed.antt =====
-- What the route transform (plugins/transform/route/route.go) sends on.
use eventr.Common.{
  Bool, true, false, String, List, [], ◌∷◌, Option, some, if◌then◌else◌, ◌⊎◌, inl, inr, All, ◌≡◌,
  ◌≢◌, refl, sym, subst, arith, if_elim, Option-cases,
}
use eventr.Common.Text.{◌==◌}
use eventr.Common.Dict.{Dict, lookup, has}
use eventr.Common.Outcome.{ok, ◌>>=◌, or_panic, Safe, Safe-bind, Safe-ok, Safe-weaken}
use eventr.Config.Value.{Value, Fields}
use eventr.Message.{Message, shallow_copy}
use eventr.Eql.Program.{Bindings}
use eventr.Eql.Compile.{Program, eval_filter}
use eventr.Plugins.Filter.{returned, bindings_of}
use eventr.Plugins.Route.{first_match, tagged, route_batch, new_route}
use eventr.Plugins.Route.Order.{Known, IfDone, new_route-Known}

known_route {ℓ} :
    {Program : Type ℓ} (name : String) (routes : Dict Program)
    → has name routes ≡ true
    → (p : Program) × (lookup name routes ≡ some p)
known_route name routes k = elim (Option-cases (lookup name routes)) [
  | inl e ↦ absurd (ground arith)
  | inr found ↦ found
]

module _ {Expr E : Type 0} (evaluate : Expr → Bindings → E ⊎ Value)
    (routes : Dict (Program Expr)) where
  -- What the condition of a route gives.
  abbrev pub Gives : Bindings → String → Bool → Type 0
  Gives b name v =
      (p : Program Expr) × (lookup name routes ≡ some p) × (eval_filter evaluate p b ≡ inr v)

  abbrev pub NoneHolds : List String → Bindings → Type 0
  NoneHolds [] b = Unit
  NoneHolds (name ∷ order) b = Gives b name false × NoneHolds order b

  -- The first route of the order that holds.
  abbrev pub FirstIs : List String → Bindings → String → Type 0
  FirstIs [] b matched = ⊥
  FirstIs (name ∷ order) b matched =
      (name ≡ matched) × Gives b name true ⊎ Gives b name false × FirstIs order b matched

  -- What first_match says.
  abbrev Matches : List String → Bindings → String → Type 0
  Matches order b matched = FirstIs order b matched ⊎ (matched ≡ "") × NoneHolds order b

  unmatched :
      (matched : String) (order : List String) (b : Bindings)
      → matched ≡ ""
      → Matches order b matched
      → NoneHolds order b ⊎ FirstIs order b ""
  unmatched matched order b e (inl first) = inr (subst (FirstIs order b) e first)
  unmatched matched order b e (inr (_, others)) = inl others

  is_first :
      (matched : String) (order : List String) (b : Bindings)
      → matched ≢ ""
      → Matches order b matched
      → FirstIs order b matched
  is_first matched order b ne (inl first) = first
  is_first matched order b ne (inr (e, _)) = absurd (ne e)

  evaluated :
      (name : String) (order : List String) (b : Bindings) (p : Program Expr)
      → lookup name routes ≡ some p
      → (r : E ⊎ Bool) → eval_filter evaluate p b ≡ r
      → Safe (Matches order b) (first_match evaluate routes order b)
      → Safe
          (Matches (name ∷ order) b)
          (returned r >>= (λ holds. if holds then ok name else first_match evaluate routes order b))
  unfolding Safe
  evaluated name order b p l (inl e) h rest = tt
  evaluated name order b p l (inr true) h rest = inl (inl (refl, (p, l, h)))
  evaluated name order b p l (inr false) h rest =
      Safe-weaken _ (Matches (name ∷ order) b) _ rest (λ matched. elim [
        | inl first ↦ inl (inr ((p, l, h), first))
        | inr (none_matched, others) ↦ inr (none_matched, ((p, l, h), others))
      ])

  first_match-Safe :
      (order : List String) (b : Bindings)
      → Known routes order
      → Safe (Matches order b) (first_match evaluate routes order b)
  unfolding first_match
  first_match-Safe [] b k = Safe-ok _ _ _ (inr (refl, tt))
  first_match-Safe (name ∷ order) b (k, ks) =
      let rest = first_match-Safe order b ks in
      let (p, l) = known_route name routes k in
      subst
        (λ o. Safe (Matches (name ∷ order) b) (
          or_panic o >>= (λ program.
            returned (eval_filter evaluate program b)
            >>= (λ holds. if holds then ok name else first_match evaluate routes order b))))
        (sym l) (evaluated name order b p l (eval_filter evaluate p b) refl rest)

module _ {Bytes Handler Expr E : Type 0} (decode : Option Bytes → Fields)
    (evaluate : Expr → Bindings → E ⊎ Value) (routes : Dict (Program Expr)) where
  -- What a transform with the routes sends on of a batch: each message of which a first route holds,
  -- as a copy with the name of that route, and no others, in order. (A route of the name "" sends
  -- nothing on.)
  pub data Routed (order : List String)
      : List (Message Bytes Value Handler) → List (Message Bytes Value Handler) → Type 0 where
    none_left : Routed order [] []
    sent :
        (m : Message Bytes Value Handler) (batch out : List (Message Bytes Value Handler))
        (name : String)
        → name ≢ ""
        → FirstIs evaluate routes order (bindings_of decode (shallow_copy m)) name
        → Routed order batch out
        → Routed order (m ∷ batch) (tagged name (shallow_copy m) ∷ out)
    dropped :
        (m : Message Bytes Value Handler) (batch out : List (Message Bytes Value Handler))
        → NoneHolds evaluate routes order (bindings_of decode (shallow_copy m))
          ⊎ FirstIs evaluate routes order (bindings_of decode (shallow_copy m)) ""
        → Routed order batch out
        → Routed order (m ∷ batch) out

  route_batch-Safe :
      (order : List String) (batch : List (Message Bytes Value Handler))
      → Known routes order
      → Safe (Routed order batch) (route_batch decode evaluate routes order batch)
  unfolding route_batch
  route_batch-Safe order [] k = Safe-ok _ _ _ none_left
  route_batch-Safe order (m ∷ batch) k =
      Safe-bind _ _ _ _
        (first_match-Safe evaluate routes order (bindings_of decode (shallow_copy m)) k)
        (λ matched found. Safe-bind _ _ _ _ (route_batch-Safe order batch k) (λ out rest.
          Safe-ok _ (Routed order (m ∷ batch)) _ (
            if_elim (Routed order (m ∷ batch)) (matched == "") _ _
              (λ e.
                dropped m batch out (unmatched evaluate routes matched order _ (ground arith) found)
                  rest)
              (λ e.
                let ne : matched ≢ "" = ground arith in
                sent m batch out matched ne (is_first evaluate routes matched order _ ne found)
                  rest))))

module _ {Bytes Handler Expr E : Type 0} (compile : String → E ⊎ Expr)
    (decode : Option Bytes → Fields) (evaluate : Expr → Bindings → E ⊎ Value)
    (sort : List String → List String)
    (sort_keeps : (P : String → Type 0) (xs : List String) → All P xs → All P (sort xs)) where
  -- Where sorting names keeps what holds of each of them: a route transform that its factory made
  -- from a configuration does not panic on any batch, and if no evaluation fails, it sends on each
  -- message of which a first route in the order holds, as a copy with the name of that route, and
  -- no others, in the order of the batch.
  pub new_route-Routed :
      (cfg : Fields) (routes : Dict (Program Expr)) (order : List String)
      (batch : List (Message Bytes Value Handler))
      → new_route compile sort cfg ≡ inr (routes, order)
      → Safe
          (Routed decode evaluate routes order batch)
          (route_batch decode evaluate routes order batch)
  new_route-Routed cfg routes order batch h =
      route_batch-Safe decode evaluate routes order batch
        (subst (IfDone (λ c. Known c.0 c.1)) h (new_route-Known compile sort sort_keeps cfg))
