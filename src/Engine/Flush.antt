-- ===== src/Engine/Flush.antt =====
-- flushSinkBatch, reserializeIfDirty, findDeliveryForStage and deliverToDLQ of
-- internal/engine/pipeline.go. `encode` is the encoder of the sink, if it has one; `write` tells what
-- sk.Write returns for a batch in an attempt and `stop` whether the context ends before the next one.
-- The results of the writes to the dead letter sink are dropped by the code.
pub mod Accounts
use eventr.Common.{
  Bool, true, false, String, List, [], ◌∷◌, ◌++◌, map, ℕ, suc, Option, none, some, if◌then◌else◌,
  ◌⊎◌, inl, inr,
}
use eventr.Common.Text.{◌==◌}
use eventr.Common.Dict.{Dict, lookup}
use eventr.Config.Value.{Value, Fields, nil, field, text}
use eventr.Config.Types.{DeliverySpec, DlqConfig}
use eventr.Topology.Ir.{EdgeIr}
use eventr.Message.{Message, ack, new_message, backup_original_payload, original_payload_of}
use eventr.Engine.Retry
use eventr.Engine.Retry.{RetryError, write_with_retry}
use eventr.Engine.Build.{Stage, as_source, as_transform, as_sink}

-- findDeliveryForStage: the delivery of the first edge that ends at the stage and has one.
unfoldable pub find_delivery : String → List EdgeIr → Option DeliverySpec
find_delivery id [] = none
find_delivery id (e ∷ edges) =
    let rest = find_delivery id edges in
    if e.to == id then elim e.delivery [ none ↦ rest | some d ↦ some d ] else rest

module _ {ℓ κ μ ν} {Bytes : Type ℓ} {Data : Type κ} {Handler : Type μ} {E : Type ν} where
  -- The payload is replaced, and the first one kept.
  abbrev pub replace_payload :
      E ⊎ Bytes → Message Bytes Data Handler → Message Bytes Data Handler × Option E
  replace_payload (inl e) m = (m, some e)
  replace_payload (inr p) m = (record (backup_original_payload m) { payload = some p }, none)

  unfoldable pub reserialize :
      Option (Data → E ⊎ Bytes) → Message Bytes Data Handler → Message Bytes Data Handler × Option E
  unfolding backup_original_payload
  reserialize encoder m =
      if m.parsed_dirty
      then elim encoder [
        | none ↦ (m, none)
        | some encode ↦ elim m.parsed_data [
          | none ↦ (m, none)
          | some d ↦ replace_payload (encode d) m
        ]
      ]
      else (m, none)

  -- The loop over a batch, which drops the errors.
  unfoldable pub reserialize_all :
      Option (Data → E ⊎ Bytes)
      → List (Message Bytes Data Handler)
      → List (Message Bytes Data Handler)
  unfolding reserialize
  reserialize_all encoder [] = []
  reserialize_all encoder (m ∷ batch) = (reserialize encoder m).0 ∷ reserialize_all encoder batch

  unfoldable pub ack_all :
      Option (RetryError E)
      → List (Message Bytes Data Handler)
      → List (Handler × Option (RetryError E))
  unfolding ack
  ack_all e [] = []
  ack_all e (m ∷ batch) = ack e m ++ ack_all e batch

-- Whether a stage is there and is a sink.
abbrev pub is_sink {ℓ} :
    {Source Transform Sink : Type ℓ} → Option (Stage Source Transform Sink) → Bool
is_sink none = false
is_sink (some (as_source s)) = false
is_sink (some (as_transform t)) = false
is_sink (some (as_sink s)) = true

abbrev pub dlq_sink : Option DlqConfig → String
dlq_sink none = ""
dlq_sink (some d) = d.sink

-- Whether a batch that failed goes to a dead letter sink.
unfoldable pub has_dlq {ℓ} :
    {Source Transform Sink : Type ℓ} → Option DlqConfig → Dict (Stage Source Transform Sink) → Bool
unfolding lookup
has_dlq dlq stages = if dlq_sink dlq == "" then false else is_sink (lookup (dlq_sink dlq) stages)

unfoldable pub dlq_metadata : String → String → String → String → Fields
dlq_metadata pipeline source now reason = field "er-error-reason" (text reason) (
    field "er-error-stage" (text source) (
      field "er-error-timestamp" (text now)
        (field "er-original-pipeline" (text pipeline) (field "er-retry-count" (text "0") nil))))

-- The messages that deliverToDLQ writes, one at a time; new_id n is the id of the n-th.
unfoldable pub dlq_messages {ℓ κ μ} :
    {Bytes : Type ℓ} {Data : Type κ} {Handler : Type μ}
    → Fields
    → (ℕ → String)
    → ℕ
    → List (Message Bytes Data Handler)
    → List (Message Bytes Data Handler)
unfolding new_message original_payload_of
dlq_messages metadata new_id n [] = []
dlq_messages metadata new_id n (m ∷ batch) =
    record (new_message (original_payload_of m) (some metadata)) { id = new_id n }
    ∷ dlq_messages metadata new_id (suc n) batch

-- What a flush does: the messages that the sink was given, the attempts, the messages for the dead
-- letter sink and the calls of the handlers, in this order.
pub record Flushed {ℓ κ μ ν} (Bytes : Type ℓ) (Data : Type κ) (Handler : Type μ) (E : Type ν)
    : Type (ℓ ⊔ κ ⊔ μ ⊔ ν) where
  pub batch : List (Message Bytes Data Handler)
  pub written : Retry.Outcome E
  pub dead : List (Message Bytes Data Handler)
  pub acks : List (Handler × Option (RetryError E))

-- What the pipeline contributes to a flush.
pub record Surroundings {ν σ} (E : Type ν) (Source Transform Sink : Type σ) : Type (ν ⊔ σ) where
  pub pipeline : String
  pub source : String
  pub now : String
  pub describe : RetryError E → String
  pub new_id : ℕ → String
  pub dlq : Option DlqConfig
  pub stages : Dict (Stage Source Transform Sink)

module _ {ℓ κ μ ν σ} {Bytes : Type ℓ} {Data : Type κ} {Handler : Type μ} {E : Type ν}
    {Source Transform Sink : Type σ} (env : Surroundings E Source Transform Sink) where
  unfoldable pub deliver_to_dlq :
      List (Message Bytes Data Handler) → Option (RetryError E) → List (Message Bytes Data Handler)
  unfolding has_dlq dlq_messages dlq_metadata
  deliver_to_dlq batch none = []
  deliver_to_dlq batch (some e) =
      if has_dlq env.dlq env.stages
      then dlq_messages (dlq_metadata env.pipeline env.source env.now (env.describe e)) env.new_id 0
          batch
      else []

  unfoldable pub flush_sink_batch :
      Option (Data → E ⊎ Bytes)
      → (List (Message Bytes Data Handler) → ℕ → Option E)
      → (ℕ → Option E)
      → Option DeliverySpec
      → List (Message Bytes Data Handler)
      → Flushed Bytes Data Handler E
  unfolding reserialize_all write_with_retry deliver_to_dlq ack_all
  flush_sink_batch encoder write stop delivery batch =
      let ready = reserialize_all encoder batch in
      let written = write_with_retry (write ready) stop delivery in
      record {
        batch = ready;
        written = written;
        dead = deliver_to_dlq ready written.error;
        acks = ack_all written.error ready;
      }
