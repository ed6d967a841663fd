-- ===== src/Engine/Outputs.antt =====
-- dispatchTransformOutputs of internal/engine/dispatch.go: the outputs of a transform go downstream,
-- and each input is acknowledged through the outputs that carry its id.
pub mod Covered
use eventr.Common.{
  Bool, true, false, String, List, [], ◌∷◌, ◌++◌, ℕ, zero, suc, Option, none, some, if◌then◌else◌,
  eqb, ◌&&◌,
}
use eventr.Common.Text.{◌==◌, contains}
use eventr.Common.Dict.{Dict, lookup, insert, get_or}

-- A message by its id and by its address: `==` on messages compares addresses.
pub record Message : Type 0 where
  pub id : String
  pub address : ℕ

-- An ackAggregator as it is made: how many children, and for which parent.
pub record Aggregator : Type 0 where
  pub pending : ℕ
  pub parent : Message

-- What happens to a message: it is acknowledged with nil, dispatched with its own acknowledgement,
-- or dispatched as a child that counts down the aggregator.
pub data Effect : Type 0 where
  ack_nil : Message → Effect
  pass : Message → Effect
  child : Message → Aggregator → Effect

-- outCountByID
unfoldable pub count_outputs : Dict ℕ → List Message → Dict ℕ
count_outputs counts [] = counts
count_outputs counts (m ∷ rest) =
    count_outputs (insert m.id (suc (get_or m.id 0 counts)) counts) rest

abbrev pub same_message : Message → Message → Bool
same_message a b = a.id == b.id && eqb a.address b.address

-- `o.ID == m.ID && o == m` for some output
unfoldable pub is_output : Message → List Message → Bool
is_output m [] = false
is_output m (o ∷ rest) = let later = is_output m rest in if same_message o m then true else later

-- The state of the first loop: the ids that were passed through, the aggregators, and the effects.
pub record Progress : Type 0 where
  pub passed : List String
  pub aggs : Dict Aggregator
  pub effects : List Effect

-- `aggs[m.ID] = &ackAggregator{...}` unless the id was passed through
abbrev pub aggregate : ℕ → Message → Progress → Progress
aggregate count m p =
    if contains p.passed m.id
    then p
    else record p { aggs = insert m.id (record { pending = count; parent = m }) p.aggs }

unfoldable pub take_input : Dict ℕ → List Message → Message → Progress → Progress
unfolding is_output
take_input counts outputs m p =
    let count = get_or m.id 0 counts in
    if eqb count 0
    then record p { effects = p.effects ++ ack_nil m ∷ [] }
    else if eqb count 1 && is_output m outputs
    then record p { passed = m.id ∷ p.passed; effects = p.effects ++ pass m ∷ [] }
    else aggregate count m p

unfoldable pub take_inputs : Dict ℕ → List Message → List Message → Progress → Progress
unfolding take_input
take_inputs counts outputs [] p = p
take_inputs counts outputs (m ∷ rest) p =
    take_inputs counts outputs rest (take_input counts outputs m p)

-- The second loop.
unfoldable pub send_children : List String → Dict Aggregator → List Message → List Effect
send_children passed aggs [] = []
send_children passed aggs (o ∷ rest) =
    let later = send_children passed aggs rest in
    if contains passed o.id
    then later
    else elim (lookup o.id aggs) [ none ↦ later | some agg ↦ child o agg ∷ later ]

unfoldable pub dispatch_transform_outputs : List Message → List Message → List Effect
unfolding count_outputs take_inputs send_children
dispatch_transform_outputs inputs outputs =
    let start : Progress = record { passed = []; aggs = []; effects = [] } in
    let p = take_inputs (count_outputs [] outputs) outputs inputs start in
    p.effects ++ send_children p.passed p.aggs outputs
