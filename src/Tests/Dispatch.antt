-- ===== src/Tests/Dispatch.antt =====
-- Dispatch of messages, failed evaluations and the outputs of a transform.
use eventr.Common.{false, String, [], ◌∷◌, ℕ, ◌≡◌, ◌≢◌, refl, none, some}
use eventr.Common.Text.{string_dec}
use eventr.Common.Dict.{Dict, lookup}
use eventr.Topology.Ir.{EdgeIr}
use eventr.Engine.ErrorMode.{ErrorMode, propagate, ignore}
use eventr.Engine.Dispatch.{Evaluated, value, failed, ack, send, dispatch_from, eval_condition}
use eventr.Engine.Dispatch.Accounts.{dispatch_from-taken, dispatch_from-acks_twice, NotFatal}
use eventr.Engine.Outputs.{Message, dispatch_transform_outputs}
use eventr.Engine.Outputs.Covered.{dispatch_transform_outputs-expected, about, expected}
use eventr.Tests.Samples.{link}

-- A program is what it evaluates to.
abbrev evaluate : Evaluated String → Evaluated String
evaluate r = r

abbrev conditions : Dict (Evaluated String)
conditions = ("left", value false) ∷ ("right", failed "no field") ∷ []

abbrev left : EdgeIr
left = link "in" "left" "payload.a"

abbrev right : EdgeIr
right = link "in" "right" "payload.b"

abbrev plain : EdgeIr
plain = link "in" "out" ""

calm :
    (mode : ErrorMode) → mode ≢ propagate → (edge : EdgeIr) → NotFatal evaluate mode conditions edge
calm mode h edge e (_, _, p) = h p

calm_left : NotFatal evaluate propagate conditions left
unfolding eval_condition lookup string_dec
calm_left e (f, _, _) = cc

dispatch_from-taken_example :
    dispatch_from evaluate ignore conditions (left ∷ right ∷ plain ∷ []) ≡ send plain ∷ []
unfolding eval_condition lookup string_dec
dispatch_from-taken_example =
    dispatch_from-taken evaluate ignore conditions (left ∷ right ∷ plain ∷ [])
      (calm ignore (λ e. cc) left, (calm ignore (λ e. cc) right, (calm ignore (λ e. cc) plain, tt)))

dispatch_from-acks_twice_example :
    dispatch_from evaluate propagate conditions (left ∷ right ∷ plain ∷ [])
    ≡ ack (some "no field") ∷ ack none ∷ []
unfolding eval_condition lookup string_dec
dispatch_from-acks_twice_example =
    dispatch_from-acks_twice evaluate propagate conditions (left ∷ []) right (plain ∷ []) "no field"
      (calm_left, tt) (refl, refl, refl)

abbrev message : String → ℕ → Message
message id address = record { id = id; address = address }

dispatch_transform_outputs-expected_example :
    about "m" (dispatch_transform_outputs (message "m" 1 ∷ []) (message "m" 2 ∷ message "m" 3 ∷ []))
    ≡ expected (message "m" 1) (message "m" 2 ∷ message "m" 3 ∷ [])
dispatch_transform_outputs-expected_example =
    dispatch_transform_outputs-expected [] (message "m" 1) [] (message "m" 2 ∷ message "m" 3 ∷ [])
      tt tt
