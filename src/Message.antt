-- ===== src/Message.antt =====
-- internal/message/message.go: a message and its copies. Bytes is the type of a payload, of which nil
-- is one, Data that of the decoded value, and Handler that of the functions that an Ack calls.
use eventr.Common.{Bool, true, false, String, List, [], ◌∷◌, map, Option, none, some, if◌then◌else◌}
use eventr.Config.Value.{Fields, nil}

-- `ack_fn` lists the handlers in the order in which the one function calls them; none stands for nil.
pub record Message {ℓ κ μ} (Bytes : Type ℓ) (Data : Type κ) (Handler : Type μ)
    : Type (ℓ ⊔ κ ⊔ μ) where
  pub id : String
  pub payload : Option Bytes
  pub metadata : Option Fields
  pub parsed_data : Option Data
  pub parsed_dirty : Bool
  pub parsed_codec : String
  pub decoder_stage_id : String
  pub read_only : Bool
  pub original_payload : Option Bytes
  pub ack_fn : List Handler

abbrev some_or_empty : Option Fields → Option Fields
some_or_empty none = some nil
some_or_empty (some m) = some m

module _ {ℓ κ μ} {Bytes : Type ℓ} {Data : Type κ} {Handler : Type μ} where
  -- New
  unfoldable pub new_message : Option Bytes → Option Fields → Message Bytes Data Handler
  new_message payload metadata = record {
    id = "";
    payload = payload;
    metadata = some_or_empty metadata;
    parsed_data = none;
    parsed_dirty = false;
    parsed_codec = "";
    decoder_stage_id = "";
    read_only = false;
    original_payload = none;
    ack_fn = [];
  }

  unfoldable pub set_ack_fn : Handler → Message Bytes Data Handler → Message Bytes Data Handler
  set_ack_fn h m = record m { ack_fn = h ∷ [] }

  -- WrapAckFn: the extra handler goes first, if there is one.
  unfoldable pub wrap_ack_fn :
      Option Handler → Message Bytes Data Handler → Message Bytes Data Handler
  wrap_ack_fn none m = m
  wrap_ack_fn (some h) m = record m { ack_fn = h ∷ m.ack_fn }

  -- The calls that Ack makes.
  unfoldable pub ack {ν} :
      {E : Type ν} → Option E → Message Bytes Data Handler → List (Handler × Option E)
  ack e m = map (λ h. (h, e)) m.ack_fn

  unfoldable pub shallow_copy : Message Bytes Data Handler → Message Bytes Data Handler
  shallow_copy m = record m { metadata = some_or_empty m.metadata; read_only = true; ack_fn = [] }

  unfoldable pub set_parsed_data :
      Option Data → Message Bytes Data Handler → Message Bytes Data Handler
  set_parsed_data d m = record m { parsed_data = d; parsed_dirty = true; read_only = false }

  unfoldable pub backup_original_payload : Message Bytes Data Handler → Message Bytes Data Handler
  backup_original_payload m = elim m.original_payload [
    | none ↦ record m { original_payload = m.payload }
    | some p ↦ m
  ]

  -- OriginalPayload
  unfoldable pub original_payload_of : Message Bytes Data Handler → Option Bytes
  original_payload_of m = elim m.original_payload [ none ↦ m.payload | some p ↦ some p ]

  -- EnsureWritable: the decoded value is copied once, if it is shared. `copy` is what the copy of a
  -- value is, deepCopyValue, and where it lies.
  unfoldable pub ensure_writable {ν} :
      {Heap : Type ν}
      → (Data → Heap → Data × Heap)
      → Message Bytes Data Handler
      → Heap
      → Message Bytes Data Handler × Heap
  ensure_writable copy m heap = elim m.parsed_data [
    | none ↦ (m, heap)
    | some d ↦
        if m.read_only
        then (let (d', heap') = copy d heap in
            (record m { parsed_data = some d'; read_only = false }, heap'))
        else (m, heap)
  ]
