-- ===== src/Engine/Dispatch.antt =====
-- dispatchFrom, matchEdges (internal/engine/pipeline.go) and evalCondition
-- (internal/engine/dispatch.go): which edges a message takes from a stage, and what acknowledges it.
pub mod Accounts
use eventr.Common.{
  Bool, true, false, String, List, [], ◌∷◌, ◌++◌, map, ℕ, Option, none, some, if◌then◌else◌, length,
}
use eventr.Common.Text.{◌==◌}
use eventr.Common.Dict.{Dict, lookup}
use eventr.Topology.Ir.{EdgeIr}
use eventr.Engine.ErrorMode.{ErrorMode, Handled, handle_eval_error}

-- `(bool, error)`
pub data Evaluated {ℓ} (E : Type ℓ) : Type ℓ where
  value : Bool → Evaluated E
  failed : E → Evaluated E

-- What happens to the message: `ack e` is `msg.Ack(e)`, and `send edge` hands a child to the edge's
-- buffer, whose acknowledgement counts down in `Acks`.
pub data Effect {ℓ} (E : Type ℓ) : Type ℓ where
  ack : Option E → Effect E
  send : EdgeIr → Effect E

-- matchEdges: the edges that match, or nil after an acknowledgement with an error.
pub data Match {ℓ} (E : Type ℓ) : Type ℓ where
  matched : List EdgeIr → Match E
  refused : Option E → Match E

module _ {ℓ} {E : Type ℓ} where
  -- `append(matched, edge)` before the rest of the loop.
  abbrev pub also : EdgeIr → Match E → Match E
  also edge (matched edges) = matched (edge ∷ edges)
  also edge (refused e) = refused e

  -- What one turn of the loop does with the rest of it, after the condition was evaluated.
  unfoldable pub match_edge : ErrorMode → EdgeIr → Evaluated E → Match E → Match E
  unfolding handle_eval_error
  match_edge mode edge (value true) rest = also edge rest
  match_edge mode edge (value false) rest = rest
  match_edge mode edge (failed e) rest =
      let h = handle_eval_error mode (some e) in
      if h.treat_as_false then rest else if edge.required then refused h.ack_error else rest

  -- `if len(matched) == 0 { msg.Ack(nil); return }`, and else one child for each edge.
  unfoldable pub send_matched : Match E → List (Effect E)
  send_matched (refused e) = ack e ∷ ack none ∷ []
  send_matched (matched []) = ack none ∷ []
  send_matched (matched (edge ∷ edges)) = map send (edge ∷ edges)

module _ {ℓ κ} {E : Type ℓ} {Program : Type κ} (evaluate : Program → Evaluated E) where
  -- evalCondition: a missing program holds. `evaluate` stands for decoding the payload where that is
  -- still to do, and the evaluation by the expression library; both may fail.
  unfoldable pub eval_condition : Option Program → Evaluated E
  eval_condition none = value true
  eval_condition (some program) = evaluate program

  module _ (mode : ErrorMode) (conditions : Dict Program) where
    unfoldable pub match_edges : List EdgeIr → Match E
    unfolding match_edge eval_condition
    match_edges [] = matched []
    match_edges (edge ∷ edges) =
        let rest = match_edges edges in
        if edge.condition == ""
        then also edge rest
        else match_edge mode edge (eval_condition (lookup edge.to conditions)) rest

    unfoldable pub dispatch_from : List EdgeIr → List (Effect E)
    unfolding match_edges send_matched
    dispatch_from [] = ack none ∷ []
    dispatch_from (edge ∷ edges) = send_matched (match_edges (edge ∷ edges))
