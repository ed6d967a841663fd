-- ===== src/Buffer/Wal.antt =====
-- The records of a segment file: encodeWALRecord and decodeWALRecord of internal/buffer/wal.go.
-- A byte is a number, and a Go string its bytes. encoding/json is a parameter: `marshal`, and
-- `unmarshal`, whose inner none is a nil map.
pub mod RoundTrip
use eventr.Common.{
  Bool, true, false, List, [], ◌∷◌, ◌++◌, ℕ, zero, suc, ◌+◌, ◌*◌, ◌/◌, ◌%◌, ◌^◌, Option, none, some,
  if◌then◌else◌, eqb, length, take, drop, is_empty,
}

abbrev pub Bytes : Type 0
Bytes = List ℕ

-- What the records keep of a message.Message; `none` is a nil map.
pub record Message {ℓ} (Meta : Type ℓ) : Type ℓ where
  pub id : Bytes
  pub payload : Bytes
  pub metadata : Option Meta

-- io.EOF, io.ErrUnexpectedEOF, and the errors of decodeWALRecord itself.
pub data WalError : Type 0 where
  eof unexpected_eof invalid_magic bad_metadata : WalError

-- The outcome of a read, with the bytes that are left.
pub data Read {ℓ} (A : Type ℓ) : Type ℓ where
  ok : A → Bytes → Read A
  err : WalError → Read A

abbrev pub wal_magic : ℕ
wal_magic = 0x45525631

-- binary.BigEndian.PutUint32(b, uint32(n))
unfoldable pub put_uint32 : ℕ → Bytes
put_uint32 n = n / 16777216 % 256 ∷ n / 65536 % 256 ∷ n / 256 % 256 ∷ n % 256 ∷ []

-- binary.BigEndian.Uint32 of four bytes
unfoldable pub get_uint32 : Bytes → ℕ
get_uint32 (a ∷ b ∷ c ∷ d ∷ rest) = a * 16777216 + b * 65536 + c * 256 + d
get_uint32 (a ∷ b ∷ c ∷ []) = 0
get_uint32 (a ∷ b ∷ []) = 0
get_uint32 (a ∷ []) = 0
get_uint32 [] = 0

unfoldable pub split_at : ℕ → Bytes → Option (Bytes × Bytes)
split_at zero bs = some ([], bs)
split_at (suc n) [] = none
split_at (suc n) (b ∷ bs) = elim (split_at n bs) [
  | none ↦ none
  | some (taken, rest) ↦ some (b ∷ taken, rest)
]

-- io.ReadFull into a buffer of n > 0 bytes
unfoldable pub read_full : ℕ → Bytes → Read Bytes
unfolding split_at
read_full n bs = elim (split_at n bs) [
  | some (taken, rest) ↦ ok taken rest
  | none ↦ if is_empty bs then err eof else err unexpected_eof
]

-- `if n > 0 { io.ReadFull(…) }`
unfoldable pub read_block : ℕ → Bytes → Read Bytes
unfolding read_full
read_block n bs = if eqb n 0 then ok [] bs else read_full n bs

abbrev pub then_read {ℓ κ} : {A : Type ℓ} {B : Type κ} → Read A → (A → Bytes → Read B) → Read B
then_read (ok a rest) next = next a rest
then_read (err e) next = err e

module _ {ℓ} {Meta : Type ℓ} (empty : Meta) where
  -- A nil map becomes an empty one: in cloneMetadata, and after json.Unmarshal.
  abbrev pub or_empty : Option Meta → Meta
  or_empty none = empty
  or_empty (some m) = m

  module _ (marshal : Meta → Option Bytes) (new_id : Bytes) where
    abbrev pub id_of : Message Meta → Bytes
    id_of msg = if is_empty msg.id then new_id else msg.id

    unfoldable pub encode : Message Meta → Option Bytes
    unfolding put_uint32
    encode msg = elim (marshal (or_empty msg.metadata)) [
      | none ↦ none
      | some meta ↦ some (
          put_uint32 wal_magic
          ++ put_uint32 (length msg.payload % 2 ^ 32)
          ++ put_uint32 (length meta % 2 ^ 32)
          ++ put_uint32 (length (id_of msg) % 2 ^ 32)
          ++ id_of msg
          ++ msg.payload
          ++ meta)
    ]

  module _ (unmarshal : Bytes → Option (Option Meta)) where
    -- message.New with the id set; no bytes of metadata stand for a nil map.
    abbrev pub made : Bytes → Bytes → Option (Option Meta) → Bytes → Read (Message Meta)
    made id payload none rest = err bad_metadata
    made id payload (some m) rest =
        ok (record { id = id; payload = payload; metadata = some (or_empty m) }) rest

    unfoldable pub finish : Bytes → Bytes → Bytes → Bytes → Read (Message Meta)
    finish id payload meta rest =
        made id payload (if is_empty meta then some none else unmarshal meta) rest

    unfoldable pub decode_meta : Bytes → Bytes → ℕ → Bytes → Read (Message Meta)
    unfolding read_block finish
    decode_meta id payload meta_len bs = then_read (read_block meta_len bs) (finish id payload)

    unfoldable pub decode_payload : ℕ → ℕ → Bytes → Bytes → Read (Message Meta)
    unfolding read_block decode_meta
    decode_payload payload_len meta_len id bs =
        then_read (read_block payload_len bs) (λ payload. decode_meta id payload meta_len)

    unfoldable pub decode_id : ℕ → ℕ → Bytes → Bytes → Read (Message Meta)
    unfolding read_block get_uint32 decode_payload
    decode_id payload_len meta_len id_len bs =
        then_read (read_block (get_uint32 id_len) bs) (decode_payload payload_len meta_len)

    -- After the header: the length of the id, the id, the payload and the metadata.
    unfoldable pub decode_body : ℕ → ℕ → Bytes → Read (Message Meta)
    unfolding read_full decode_id
    decode_body payload_len meta_len bs =
        then_read (read_full 4 bs) (decode_id payload_len meta_len)

    unfoldable pub decode_header : Bytes → Bytes → Read (Message Meta)
    unfolding get_uint32 decode_body
    decode_header header bs =
        if eqb (get_uint32 (take 4 header)) wal_magic
        then decode_body (get_uint32 (take 4 (drop 4 header))) (get_uint32 (take 4 (drop 8 header)))
            bs
        else err invalid_magic

    unfoldable pub decode : Bytes → Read (Message Meta)
    unfolding read_full decode_header
    decode bs = then_read (read_full 12 bs) decode_header
