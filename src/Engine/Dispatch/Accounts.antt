-- ===== src/Engine/Dispatch/Accounts.antt =====
-- Which edges dispatchFrom (internal/engine/pipeline.go) takes, and how often it acknowledges.
use eventr.Common.{
  Bool, true, false, List, [], ◌∷◌, ◌++◌, map, Option, none, some, if◌then◌else◌, ◌≡◌, refl, All,
  arith,
}
use eventr.Common.Text.{◌==◌}
use eventr.Common.Dict.{Dict, lookup}
use eventr.Topology.Ir.{EdgeIr}
use eventr.Engine.ErrorMode.{ErrorMode, propagate}
use eventr.Engine.Dispatch.{
  Evaluated, value, failed, Effect, ack, send, Match, matched, refused, match_edge, send_matched,
  eval_condition, match_edges, dispatch_from,
}

module _ {ℓ κ} {E : Type ℓ} {Program : Type κ} (evaluate : Program → Evaluated E) (mode : ErrorMode)
    (conditions : Dict Program) where
  abbrev result : EdgeIr → Evaluated E
  result edge =
      if edge.condition == ""
      then value true
      else eval_condition evaluate (lookup edge.to conditions)

  abbrev holds : Evaluated E → Bool
  holds (value b) = b
  holds (failed e) = false

  -- The edge has no condition, or its condition was evaluated to true.
  abbrev pub takes : EdgeIr → Bool
  takes edge = holds (result edge)

  abbrev pub taken : List EdgeIr → List EdgeIr
  taken [] = []
  taken (edge ∷ edges) = let rest = taken edges in if takes edge then edge ∷ rest else rest

  -- The condition of a required edge failed with this error, and the stage propagates errors.
  abbrev pub Fatal : EdgeIr → E → Type ℓ
  Fatal edge e = (result edge ≡ failed e) × (edge.required ≡ true) × (mode ≡ propagate)

  abbrev pub NotFatal : EdgeIr → Type ℓ
  NotFatal edge = (e : E) → ¬ Fatal edge e

  match_edges-cons :
      (edge : EdgeIr) (edges : List EdgeIr)
      → match_edges evaluate mode conditions (edge ∷ edges)
        ≡ match_edge mode edge (result edge) (match_edges evaluate mode conditions edges)
  unfolding match_edges
  match_edges-cons edge edges = ground arith

  match_edge-taken :
      (edge : EdgeIr) (r : Evaluated E) (rest : List EdgeIr)
      → ((e : E) → ¬ ((r ≡ failed e) × (edge.required ≡ true) × (mode ≡ propagate)))
      → match_edge mode edge r (matched rest) ≡ matched (if holds r then edge ∷ rest else rest)
  unfolding match_edge
  match_edge-taken edge (value true) rest h = refl
  match_edge-taken edge (value false) rest h = refl
  match_edge-taken edge (failed e) rest h = ground (arith, h e)

  match_edge-refused :
      (edge : EdgeIr) (r : Evaluated E) (x : Option E)
      → ((e : E) → ¬ ((r ≡ failed e) × (edge.required ≡ true) × (mode ≡ propagate)))
      → match_edge mode edge r (refused x) ≡ refused x
  unfolding match_edge
  match_edge-refused edge (value true) x h = refl
  match_edge-refused edge (value false) x h = refl
  match_edge-refused edge (failed e) x h = ground (arith, h e)

  match_edge-fatal :
      (edge : EdgeIr) (r : Evaluated E) (e : E) (rest : Match E)
      → r ≡ failed e
      → edge.required ≡ true
      → mode ≡ propagate
      → match_edge mode edge r rest ≡ refused (some e)
  unfolding match_edge
  match_edge-fatal edge r e rest f q p = rw f (ground arith)

  match_edges-taken :
      (edges : List EdgeIr)
      → All NotFatal edges
      → match_edges evaluate mode conditions edges ≡ matched (taken edges)
  unfolding match_edges
  match_edges-taken [] h = refl
  match_edges-taken (edge ∷ edges) (h, hs) =
      rw (match_edges-cons edge edges, match_edges-taken edges hs)
        (match_edge-taken edge (result edge) (taken edges) h)

  abbrev deliver : List EdgeIr → List (Effect E)
  deliver [] = ack none ∷ []
  deliver (edge ∷ edges) = map send (edge ∷ edges)

  send_matched-deliver :
      (edges : List EdgeIr) → send_matched {E = E} (matched edges) ≡ deliver edges
  unfolding send_matched
  send_matched-deliver [] = refl
  send_matched-deliver (edge ∷ edges) = refl

  dispatch_from-match :
      (edges : List EdgeIr)
      → dispatch_from evaluate mode conditions edges
        ≡ send_matched (match_edges evaluate mode conditions edges)
  unfolding dispatch_from
  dispatch_from-match [] = refl
  dispatch_from-match (edge ∷ edges) = refl

  -- Where no condition of a required edge fails under propagate, one child goes to each edge without
  -- a condition or with one that holds, in the order of the edges, and the message is not
  -- acknowledged yet; where there is no such edge, it is acknowledged once, with nil.
  pub dispatch_from-taken :
      (edges : List EdgeIr)
      → All NotFatal edges
      → dispatch_from evaluate mode conditions edges ≡ deliver (taken edges)
  dispatch_from-taken edges h =
      rw (dispatch_from-match edges, match_edges-taken edges h) (send_matched-deliver (taken edges))

  match_edges-refused :
      (pre : List EdgeIr) (edge : EdgeIr) (post : List EdgeIr) (e : E)
      → All NotFatal pre
      → Fatal edge e
      → match_edges evaluate mode conditions (pre ++ edge ∷ post) ≡ refused (some e)
  match_edges-refused [] edge post e h (f, q, p) =
      rw (match_edges-cons edge post) (match_edge-fatal edge (result edge) e _ f q p)
  match_edges-refused (first ∷ pre) edge post e (h, hs) f =
      rw (match_edges-cons first (pre ++ edge ∷ post), match_edges-refused pre edge post e hs f)
        (match_edge-refused first (result first) (some e) h)

  -- Where the condition of a required edge fails under propagate and no edge before it fails so, no
  -- child is sent, and the message is acknowledged twice: by matchEdges with the error, and by
  -- dispatchFrom with nil.
  pub dispatch_from-acks_twice :
      (pre : List EdgeIr) (edge : EdgeIr) (post : List EdgeIr) (e : E)
      → All NotFatal pre
      → Fatal edge e
      → dispatch_from evaluate mode conditions (pre ++ edge ∷ post) ≡ ack (some e) ∷ ack none ∷ []
  unfolding send_matched
  dispatch_from-acks_twice pre edge post e h f =
      rw (dispatch_from-match (pre ++ edge ∷ post), match_edges-refused pre edge post e h f) refl
