-- ===== src/Engine/Transform/Accounts.antt =====
-- What becomes of the messages of a batch of runTransform (internal/engine/pipeline.go).
use eventr.Common.{
  true, false, String, List, [], ◌∷◌, ◌++◌, map, ℕ, suc, ◌+◌, Option, some, if◌then◌else◌, ◌⊎◌, inl,
  inr, is_empty, ◌≡◌, refl, ap, ◌∙◌, arith, if_elim, option_elim,
}
use eventr.Common.Text.{◌==◌}
use eventr.Common.Dict.{Dict, lookup}
use eventr.Message.{Message, set_parsed_data}
use eventr.Engine.ErrorMode.{ErrorMode, ack_batch_error}
use eventr.Engine.Dispatch.{Evaluated, value, failed}
use eventr.Engine.Transform.{
  Decoder, Effect, ack, dispatch, outputs, Sorted, decoded, ensure_parsed, place, sort_message,
  sort_batch, finish, acks_of, run_batch,
}

module _ {ℓ κ μ} {Bytes : Type ℓ} {Data : Type κ} {Handler : Type μ} where
  -- How many messages have the id.
  unfoldable pub count : String → List (Message Bytes Data Handler) → ℕ
  count id [] = 0
  count id (m ∷ batch) = let n = count id batch in if m.id == id then suc n else n

  -- How often the effects settle a message with the id: an input of the transform is settled by
  -- dispatchTransformOutputs.
  abbrev pub settles {ν} : {E : Type ν} → String → Effect (Message Bytes Data Handler) E → ℕ
  settles id (ack m e) = if m.id == id then 1 else 0
  settles id (dispatch m) = if m.id == id then 1 else 0
  settles id (outputs ins out) = count id ins

  unfoldable pub settled {ν} :
      {E : Type ν} → String → List (Effect (Message Bytes Data Handler) E) → ℕ
  settled id [] = 0
  settled id (e ∷ effects) = settles id e + settled id effects

  settled-append {ν} :
      {E : Type ν} (id : String) (xs ys : List (Effect (Message Bytes Data Handler) E))
      → settled id (xs ++ ys) ≡ settled id xs + settled id ys
  unfolding settled
  settled-append id [] ys = omega arith
  settled-append id (x ∷ xs) ys = omega (arith, settled-append id xs ys)

  settled-dispatch {ν} :
      (E : Type ν) (id : String) (batch : List (Message Bytes Data Handler))
      → settled {E = E} id (map dispatch batch) ≡ count id batch
  unfolding settled count
  settled-dispatch E id [] = refl
  settled-dispatch E id (m ∷ batch) = ground (arith, settled-dispatch E id batch)

module _ {ℓ κ μ ν} {Bytes : Type ℓ} {Data : Type κ} {Handler : Type μ} {E : Type ν} where
  -- Decoding keeps the id.
  abbrev SameId : Message Bytes Data Handler → E ⊎ Message Bytes Data Handler → Type 0
  SameId m (inl e) = Unit
  SameId m (inr m') = m'.id ≡ m.id

  decoded-id : (m : Message Bytes Data Handler) (d : E ⊎ Option Data) → SameId m (decoded m d)
  unfolding set_parsed_data
  decoded-id m (inl e) = tt
  decoded-id m (inr d) = refl

  ensure_parsed-id :
      (decoders : Dict (Decoder Bytes Data E)) (m : Message Bytes Data Handler)
      → SameId m (ensure_parsed decoders m)
  unfolding ensure_parsed
  ensure_parsed-id decoders m =
      option_elim (SameId m) m.parsed_data _ _
        (λ _.
          if_elim (SameId m) (m.decoder_stage_id == "") _ _ (λ _. refl)
            (λ _.
              option_elim (SameId m) (lookup m.decoder_stage_id decoders) _ _ (λ _. refl)
                (λ decode _. decoded-id m (decode m.payload))))
        (λ d _. refl)

  module _ {σ} {Program : Type σ} (decoders : Dict (Decoder Bytes Data E))
      (evaluate : Message Bytes Data Handler → Program → Evaluated E) (mode : ErrorMode) where
    -- The messages with the id in the three parts.
    abbrev parts : String → Sorted (Message Bytes Data Handler) E → ℕ
    parts id s = settled id s.acked + count id s.pass_through + count id s.filtered

    place-parts :
        (id : String) (m : Message Bytes Data Handler) (v : Evaluated E)
        (rest : Sorted (Message Bytes Data Handler) E)
        → parts id (place decoders evaluate mode m v rest)
          ≡ (if m.id == id then suc (parts id rest) else parts id rest)
    unfolding place settled count
    place-parts id m (value true) rest = ground arith
    place-parts id m (value false) rest = ground arith
    place-parts id m (failed e) rest = ground arith

    sort_message-parts :
        (id : String) (predicate : Option Program) (m : Message Bytes Data Handler)
        (r : E ⊎ Message Bytes Data Handler) (rest : Sorted (Message Bytes Data Handler) E)
        → SameId m r
        → parts id (sort_message decoders evaluate mode predicate m r rest)
          ≡ (if m.id == id then suc (parts id rest) else parts id rest)
    unfolding sort_message settled count
    sort_message-parts id predicate m (inl e) rest h = ground arith
    sort_message-parts id predicate m (inr m') rest h =
        place-parts id m' _ rest
        ∙ ap (λ x. if x == id then suc (parts id rest) else parts id rest) h

    sort_batch-parts :
        (id : String) (predicate : Option Program) (batch : List (Message Bytes Data Handler))
        → parts id (sort_batch decoders evaluate mode predicate batch) ≡ count id batch
    unfolding sort_batch settled count
    sort_batch-parts id predicate [] = refl
    sort_batch-parts id predicate (m ∷ batch) =
        let rest = sort_batch decoders evaluate mode predicate batch in
        sort_message-parts id predicate m _ rest (ensure_parsed-id decoders m)
        ∙ ap (λ n. if m.id == id then suc n else n) (sort_batch-parts id predicate batch)

    settled-acks :
        (id : String) (e : E) (batch : List (Message Bytes Data Handler))
        → settled id (acks_of decoders evaluate mode (ack_batch_error mode (some e) batch))
          ≡ count id batch
    unfolding settled count ack_batch_error
    settled-acks id e [] = refl
    settled-acks id e (m ∷ batch) = ground (arith, settled-acks id e batch)

    finish-settled :
        (id : String) (filtered : List (Message Bytes Data Handler))
        (r : E ⊎ List (Message Bytes Data Handler))
        → settled id (finish decoders evaluate mode filtered r) ≡ count id filtered
    unfolding finish settled
    finish-settled id filtered (inl e) = settled-acks id e filtered
    finish-settled id filtered (inr out) = omega arith

    finish_unless_empty :
        (id : String) (filtered : List (Message Bytes Data Handler))
        (r : E ⊎ List (Message Bytes Data Handler))
        → settled id (if is_empty filtered then [] else finish decoders evaluate mode filtered r)
          ≡ count id filtered
    unfolding settled count
    finish_unless_empty id [] r = refl
    finish_unless_empty id (m ∷ rest) r = finish-settled id (m ∷ rest) r

    -- Whatever decoding, predicate and transform give, runTransform settles each message of a batch
    -- once: for every id, as many messages with it are acknowledged, sent downstream or handed to
    -- dispatchTransformOutputs as inputs as the batch has.
    pub run_batch-settled :
        (predicate : Option Program)
        (process : List (Message Bytes Data Handler) → E ⊎ List (Message Bytes Data Handler))
        (batch : List (Message Bytes Data Handler)) (id : String)
        → settled id (run_batch decoders evaluate mode predicate process batch) ≡ count id batch
    unfolding run_batch
    run_batch-settled predicate process batch id =
        let s = sort_batch decoders evaluate mode predicate batch in
        let last =
          if is_empty s.filtered
          then []
          else finish decoders evaluate mode s.filtered (process s.filtered) in
        let a = settled-append id (s.acked ++ map dispatch s.pass_through) last in
        let b = settled-append id s.acked (map dispatch s.pass_through) in
        let c = settled-dispatch E id s.pass_through in
        let d = finish_unless_empty id s.filtered (process s.filtered) in
        let p = sort_batch-parts id predicate batch in omega (arith, a, b, c, d, p)
