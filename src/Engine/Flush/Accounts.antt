-- ===== src/Engine/Flush/Accounts.antt =====
-- What becomes of the messages that flushSinkBatch (internal/engine/pipeline.go) writes.
use mathlib.Core.List.{Memᴰ}
use eventr.Common.{
  Bool, true, false, ◌&&◌, Bool-cases, String, List, [], ◌∷◌, ◌++◌, map, ℕ, suc, Option, none, some,
  if◌then◌else◌, ◌⊎◌, inl, inr, ◌≡◌, ◌≢◌, refl, ap, ◌∙◌, arith, if_elim, option_elim,
}
use eventr.Config.Value.{Fields}
use eventr.Config.Types.{DeliverySpec}
use eventr.Message.{Message, ack, new_message, backup_original_payload, original_payload_of}
use eventr.Engine.Retry.{RetryError, write_with_retry}
use eventr.Engine.Flush.{
  replace_payload, reserialize, reserialize_all, ack_all, has_dlq, dlq_metadata, dlq_messages,
  Surroundings, deliver_to_dlq, flush_sink_batch,
}

-- Each message has the bytes that came from its source.
abbrev pub HasOriginal {ℓ κ μ} :
    {Bytes : Type ℓ} {Data : Type κ} {Handler : Type μ}
    → List (Message Bytes Data Handler)
    → Type (ℓ ⊔ κ ⊔ μ)
HasOriginal batch = (m : Message _ _ _) → Memᴰ m batch → original_payload_of m ≢ none

unfoldable pub payloads {ℓ κ μ} :
    {Bytes : Type ℓ} {Data : Type κ} {Handler : Type μ}
    → List (Message Bytes Data Handler)
    → List (Option Bytes)
payloads [] = []
payloads (m ∷ batch) = m.payload ∷ payloads batch

unfoldable pub original_payloads {ℓ κ μ} :
    {Bytes : Type ℓ} {Data : Type κ} {Handler : Type μ}
    → List (Message Bytes Data Handler)
    → List (Option Bytes)
unfolding original_payload_of
original_payloads [] = []
original_payloads (m ∷ batch) = original_payload_of m ∷ original_payloads batch

module _ {ℓ κ μ ν} {Bytes : Type ℓ} {Data : Type κ} {Handler : Type μ} {E : Type ν} where
  -- What a reserialization keeps.
  abbrev Keeps : Message Bytes Data Handler → Message Bytes Data Handler × Option E → Type (ℓ ⊔ μ)
  Keeps m r = (original_payload_of r.0 ≡ original_payload_of m) × (r.0.ack_fn ≡ m.ack_fn)

  replace_payload-Keeps :
      (r : E ⊎ Bytes) (m : Message Bytes Data Handler)
      → original_payload_of m ≢ none
      → Keeps m (replace_payload r m)
  unfolding original_payload_of backup_original_payload
  replace_payload-Keeps (inl e) m h = (refl, refl)
  replace_payload-Keeps (inr p) m h = ground arith

  reserialize-Keeps :
      (encoder : Option (Data → E ⊎ Bytes)) (m : Message Bytes Data Handler)
      → original_payload_of m ≢ none
      → Keeps m (reserialize encoder m)
  unfolding reserialize
  reserialize-Keeps encoder m h =
      if_elim (Keeps m) m.parsed_dirty _ _
        (λ _.
          option_elim (Keeps m) encoder _ _ (λ _. (refl, refl))
            (λ encode _.
              option_elim (Keeps m) m.parsed_data _ _ (λ _. (refl, refl))
                (λ d _. replace_payload-Keeps (encode d) m h)))
        (λ _. (refl, refl))

  reserialize_all-kept :
      (encoder : Option (Data → E ⊎ Bytes)) (batch : List (Message Bytes Data Handler))
      → HasOriginal batch
      → (e : Option (RetryError E))
      → (original_payloads (reserialize_all encoder batch) ≡ original_payloads batch)
        × (ack_all e (reserialize_all encoder batch) ≡ ack_all e batch)
  unfolding reserialize_all original_payloads ack_all ack
  reserialize_all-kept encoder [] h e = (refl, refl)
  reserialize_all-kept encoder (m ∷ batch) h e =
      let (p, a) = reserialize-Keeps encoder m (h m (Memᴰ.head refl)) in
      let (later, acks) = reserialize_all-kept encoder batch (λ x l. h x (Memᴰ.tail l)) e in
      (
        ap (λ x. x ∷ original_payloads (reserialize_all encoder batch)) p
            ∙ ap (λ x. original_payload_of m ∷ x) later,
        ap (λ x. map (λ k. (k, e)) x ++ ack_all e (reserialize_all encoder batch)) a
            ∙ ap (λ x. map (λ k. (k, e)) m.ack_fn ++ x) acks,
      )

module _ {ℓ κ μ} {Bytes : Type ℓ} {Data : Type κ} {Handler : Type μ} where
  dlq_messages-payloads :
      (metadata : Fields) (new_id : ℕ → String) (n : ℕ) (batch : List (Message Bytes Data Handler))
      → payloads (dlq_messages metadata new_id n batch) ≡ original_payloads batch
  unfolding payloads dlq_messages original_payloads new_message
  dlq_messages-payloads metadata new_id n [] = refl
  dlq_messages-payloads metadata new_id n (m ∷ batch) =
      ap (λ x. original_payload_of m ∷ x) (dlq_messages-payloads metadata new_id (suc n) batch)

abbrev pub is_some {ℓ} : {A : Type ℓ} → Option A → Bool
is_some none = false
is_some (some a) = true

module _ {ℓ κ μ ν σ} {Bytes : Type ℓ} {Data : Type κ} {Handler : Type μ} {E : Type ν}
    {Source Transform Sink : Type σ} (env : Surroundings E Source Transform Sink) where
  deliver_to_dlq-payloads :
      (batch : List (Message Bytes Data Handler)) (e : Option (RetryError E))
      → payloads (deliver_to_dlq env batch e)
        ≡ (if is_some e && has_dlq env.dlq env.stages then original_payloads batch else [])
  unfolding deliver_to_dlq payloads
  deliver_to_dlq-payloads batch none = refl
  deliver_to_dlq-payloads batch (some e) =
      let d =
        dlq_messages-payloads (dlq_metadata env.pipeline env.source env.now (env.describe e))
          env.new_id 0 batch in
      elim (Bool-cases (has_dlq env.dlq env.stages)) [ inl h ↦ rw h d | inr h ↦ rw h refl ]

  -- For a batch of messages that have an original payload: flushSinkBatch calls every handler of
  -- the messages once, in order, with the outcome of the writes; and where the writes failed and
  -- the dead letter sink of the pipeline is there, that sink gets the original payloads in order,
  -- and else nothing, whatever dead letter sink the delivery of the edge names.
  pub flush_sink_batch-accounts :
      (encoder : Option (Data → E ⊎ Bytes))
      (sink : List (Message Bytes Data Handler) → ℕ → Option E) (stop : ℕ → Option E)
      (delivery : Option DeliverySpec) (batch : List (Message Bytes Data Handler))
      → HasOriginal batch
      → let f = flush_sink_batch env encoder sink stop delivery batch in
        (f.acks ≡ ack_all f.written.error batch)
        × (payloads f.dead ≡ (
            if is_some f.written.error && has_dlq env.dlq env.stages
            then original_payloads batch
            else []))
  unfolding flush_sink_batch
  flush_sink_batch-accounts encoder sink stop delivery batch h =
      let ready = reserialize_all encoder batch in
      let e = (write_with_retry (sink ready) stop delivery).error in
      let (kept, same) = reserialize_all-kept encoder batch h e in
      (
        same,
        deliver_to_dlq-payloads ready e
            ∙ ap (λ x. if is_some e && has_dlq env.dlq env.stages then x else []) kept,
      )
