-- ===== src/Engine/Transform.antt =====
-- ensureParsed and the turn of the loop of runTransform in internal/engine/pipeline.go, for a batch
-- that was received. `process` is the Process method of the stage's transform.
pub mod Accounts
use eventr.Common.{
  Bool, true, false, String, List, [], ◌∷◌, ◌++◌, map, Option, none, some, if◌then◌else◌, ◌⊎◌, inl,
  inr, is_empty,
}
use eventr.Common.Text.{◌==◌}
use eventr.Common.Dict.{Dict, lookup}
use eventr.Message.{Message, set_parsed_data}
use eventr.Engine.ErrorMode.{ErrorMode, ack_message_error, ack_batch_error}
use eventr.Engine.Dispatch.{Evaluated, value, failed, eval_condition}

-- A codec's Decode.
abbrev pub Decoder {ℓ κ ν} : Type ℓ → Type κ → Type ν → Type (ℓ ⊔ κ ⊔ ν)
Decoder Bytes Data E = Option Bytes → E ⊎ Option Data

-- What happens to the messages of a batch: one is acknowledged, one goes downstream by dispatchFrom,
-- or the inputs and outputs of the transform go to dispatchTransformOutputs.
pub data Effect {ℓ κ} (M : Type ℓ) (E : Type κ) : Type (ℓ ⊔ κ) where
  ack : M → Option E → Effect M E
  dispatch : M → Effect M E
  outputs : List M → List M → Effect M E

-- filtered and passThrough, with the acknowledgements of the first loop.
pub record Sorted {ℓ κ} (M : Type ℓ) (E : Type κ) : Type (ℓ ⊔ κ) where
  pub filtered : List M
  pub pass_through : List M
  pub acked : List (Effect M E)

module _ {ℓ κ μ ν} {Bytes : Type ℓ} {Data : Type κ} {Handler : Type μ} {E : Type ν} where
  abbrev pub decoded : Message Bytes Data Handler → E ⊎ Option Data → E ⊎ Message Bytes Data Handler
  decoded m (inl e) = inl e
  decoded m (inr d) = inr (set_parsed_data d m)

  unfoldable pub ensure_parsed :
      Dict (Decoder Bytes Data E) → Message Bytes Data Handler → E ⊎ Message Bytes Data Handler
  unfolding set_parsed_data lookup
  ensure_parsed decoders m = elim m.parsed_data [
    | some d ↦ inr m
    | none ↦ if m.decoder_stage_id == "" then inr m else elim (lookup m.decoder_stage_id decoders) [
      | none ↦ inr m
      | some decode ↦ decoded m (decode m.payload)
    ]
  ]

  module _ {σ} {Program : Type σ} (decoders : Dict (Decoder Bytes Data E))
      (evaluate : Message Bytes Data Handler → Program → Evaluated E) (mode : ErrorMode) where
    abbrev pub refuse :
        Message Bytes Data Handler
        → E
        → Sorted (Message Bytes Data Handler) E
        → Sorted (Message Bytes Data Handler) E
    refuse m e rest = record rest { acked = ack m (ack_message_error mode (some e)) ∷ rest.acked }

    -- A message whose predicate was evaluated, before those after it.
    unfoldable pub place :
        Message Bytes Data Handler
        → Evaluated E
        → Sorted (Message Bytes Data Handler) E
        → Sorted (Message Bytes Data Handler) E
    unfolding ack_message_error
    place m (value true) rest = record rest { filtered = m ∷ rest.filtered }
    place m (value false) rest = record rest { pass_through = m ∷ rest.pass_through }
    place m (failed e) rest = refuse m e rest

    -- A message after ensureParsed, which leaves it as it was where it fails.
    unfoldable pub sort_message :
        Option Program
        → Message Bytes Data Handler
        → E ⊎ Message Bytes Data Handler
        → Sorted (Message Bytes Data Handler) E
        → Sorted (Message Bytes Data Handler) E
    unfolding place eval_condition ack_message_error
    sort_message predicate m (inl e) rest = refuse m e rest
    sort_message predicate m (inr m') rest = place m' (eval_condition (evaluate m') predicate) rest

    unfoldable pub sort_batch :
        Option Program → List (Message Bytes Data Handler) → Sorted (Message Bytes Data Handler) E
    unfolding ensure_parsed sort_message
    sort_batch predicate [] = record { filtered = []; pass_through = []; acked = [] }
    sort_batch predicate (m ∷ batch) =
        sort_message predicate m (ensure_parsed decoders m) (sort_batch predicate batch)

    abbrev pub acks_of :
        List (Message Bytes Data Handler × Option E) → List (Effect (Message Bytes Data Handler) E)
    acks_of acked = map (λ a. ack a.0 a.1) acked

    -- After Process.
    unfoldable pub finish :
        List (Message Bytes Data Handler)
        → E ⊎ List (Message Bytes Data Handler)
        → List (Effect (Message Bytes Data Handler) E)
    unfolding ack_batch_error
    finish filtered (inl e) = acks_of (ack_batch_error mode (some e) filtered)
    finish filtered (inr out) = outputs filtered out ∷ []

    unfoldable pub run_batch :
        Option Program
        → (List (Message Bytes Data Handler) → E ⊎ List (Message Bytes Data Handler))
        → List (Message Bytes Data Handler)
        → List (Effect (Message Bytes Data Handler) E)
    unfolding sort_batch finish
    run_batch predicate process batch =
        let s = sort_batch predicate batch in
        s.acked
        ++ map dispatch s.pass_through
        ++ (if is_empty s.filtered then [] else finish s.filtered (process s.filtered))
