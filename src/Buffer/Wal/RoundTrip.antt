-- ===== src/Buffer/Wal/RoundTrip.antt =====
-- decodeWALRecord of internal/buffer/wal.go reads back what encodeWALRecord wrote.
use mathlib.Core.List.{append_assoc}
use eventr.Common.{
  [], ◌∷◌, ◌++◌, ℕ, ◌/◌, ◌%◌, ◌^◌, ◌<◌, ◌≡◌, ◌≢◌, refl, Option, some, length, arith, ◌∙◌, ap,
}
use native.Mathlib.Nat.{mod-eq_of_lt}
use eventr.Buffer.Wal.{
  Bytes, Message, Read, ok, wal_magic, put_uint32, get_uint32, split_at, read_full, read_block,
  then_read, or_empty, id_of, encode, finish, decode_meta, decode_payload, decode_id, decode_body,
  decode_header, decode,
}

get_uint32-put_uint32 : (n : ℕ) → n < 2 ^ 32 → get_uint32 (put_uint32 n) ≡ n
unfolding get_uint32 put_uint32
get_uint32-put_uint32 n h = omega arith

split_at-append : (xs ys : Bytes) → split_at (length xs) (xs ++ ys) ≡ some (xs, ys)
unfolding split_at
split_at-append [] ys = refl
split_at-append (x ∷ xs) ys = rw (split_at-append xs ys) refl

read_full-append : (xs ys : Bytes) → read_full (length xs) (xs ++ ys) ≡ ok xs ys
unfolding read_full
read_full-append xs ys = rw (split_at-append xs ys, read_full) refl

read_block-append : (xs ys : Bytes) → read_block (length xs) (xs ++ ys) ≡ ok xs ys
unfolding read_block
read_block-append [] ys = refl
read_block-append (x ∷ xs) ys = ground (arith, read_full-append (x ∷ xs) ys)

read_full-put_uint32 :
    (n : ℕ) (ys : Bytes) → read_full 4 (put_uint32 n ++ ys) ≡ ok (put_uint32 n) ys
unfolding put_uint32
read_full-put_uint32 n ys =
    read_full-append (n / 16777216 % 256 ∷ n / 65536 % 256 ∷ n / 256 % 256 ∷ n % 256 ∷ []) ys

read_full-header :
    (k n m : ℕ) (ys : Bytes)
    → read_full 12 (put_uint32 k ++ (put_uint32 n ++ (put_uint32 m ++ ys)))
      ≡ ok (put_uint32 k ++ put_uint32 n ++ put_uint32 m) ys
unfolding put_uint32
read_full-header k n m ys =
    read_full-append
      (k / 16777216 % 256
        ∷ k / 65536 % 256
        ∷ k / 256 % 256
        ∷ k % 256
        ∷ n / 16777216 % 256
        ∷ n / 65536 % 256
        ∷ n / 256 % 256
        ∷ n % 256
        ∷ m / 16777216 % 256
        ∷ m / 65536 % 256
        ∷ m / 256 % 256
        ∷ m % 256
        ∷ [])
      ys

through {ℓ κ} :
    {A : Type ℓ} {B : Type κ} (r : Read A) (next : A → Bytes → Read B) (a : A) (rest : Bytes)
    {b : Read B}
    → r ≡ ok a rest
    → next a rest ≡ b
    → then_read r next ≡ b
through r next a rest e f = ap (λ x. then_read x next) e ∙ f

abbrev pub encoded : Bytes → Bytes → Bytes → Bytes
encoded id payload meta =
    put_uint32 wal_magic
    ++ put_uint32 (length payload % 2 ^ 32)
    ++ put_uint32 (length meta % 2 ^ 32)
    ++ put_uint32 (length id % 2 ^ 32)
    ++ id
    ++ payload
    ++ meta

encoded-append :
    (id payload meta rest : Bytes)
    → encoded id payload meta ++ rest
      ≡ put_uint32 wal_magic
        ++ (put_uint32 (length payload % 2 ^ 32)
            ++ (put_uint32 (length meta % 2 ^ 32)
                ++ (put_uint32 (length id % 2 ^ 32) ++ (id ++ (payload ++ (meta ++ rest))))))
encoded-append id payload meta rest = simp append_assoc

module _ {ℓ} {Meta : Type ℓ} (empty : Meta) (unmarshal : Bytes → Option (Option Meta)) where
  decode_meta-append :
      (id payload meta rest : Bytes)
      → decode_meta empty unmarshal id payload (length meta) (meta ++ rest)
        ≡ finish empty unmarshal id payload meta rest
  unfolding decode_meta
  decode_meta-append id payload meta rest =
      through (read_block (length meta) (meta ++ rest)) (finish empty unmarshal id payload) meta
        rest (read_block-append meta rest) refl

  decode_payload-append :
      (id payload meta rest : Bytes)
      → decode_payload empty unmarshal (length payload) (length meta) id (payload ++ (meta ++ rest))
        ≡ finish empty unmarshal id payload meta rest
  unfolding decode_payload
  decode_payload-append id payload meta rest =
      through (read_block (length payload) (payload ++ (meta ++ rest)))
        (λ p. decode_meta empty unmarshal id p (length meta)) payload (meta ++ rest)
        (read_block-append payload (meta ++ rest)) (decode_meta-append id payload meta rest)

  decode_id-append :
      (id payload meta rest : Bytes)
      → length id < 2 ^ 32
      → decode_id empty unmarshal
          (length payload)
          (length meta)
          (put_uint32 (length id))
          (id ++ (payload ++ (meta ++ rest)))
        ≡ finish empty unmarshal id payload meta rest
  unfolding decode_id
  decode_id-append id payload meta rest h =
      let bs = id ++ (payload ++ (meta ++ rest)) in
      let n = get_uint32-put_uint32 (length id) h in
      through (read_block (get_uint32 (put_uint32 (length id))) bs)
        (decode_payload empty unmarshal (length payload) (length meta)) id
        (payload ++ (meta ++ rest))
        (ap (λ k. read_block k bs) n ∙ read_block-append id (payload ++ (meta ++ rest)))
        (decode_payload-append id payload meta rest)

  decode_body-append :
      (id payload meta rest : Bytes)
      → length id < 2 ^ 32
      → decode_body empty unmarshal
          (length payload)
          (length meta)
          (put_uint32 (length id) ++ (id ++ (payload ++ (meta ++ rest))))
        ≡ finish empty unmarshal id payload meta rest
  unfolding decode_body put_uint32
  decode_body-append id payload meta rest h =
      let bs = id ++ (payload ++ (meta ++ rest)) in
      through (read_full 4 (put_uint32 (length id) ++ bs))
        (decode_id empty unmarshal (length payload) (length meta)) (put_uint32 (length id)) bs
        (read_full-put_uint32 (length id) bs) (decode_id-append id payload meta rest h)

  decode_header-append :
      (n m : ℕ) (bs : Bytes)
      → n < 2 ^ 32
      → m < 2 ^ 32
      → decode_header empty unmarshal (put_uint32 wal_magic ++ put_uint32 n ++ put_uint32 m) bs
        ≡ decode_body empty unmarshal n m bs
  unfolding decode_header put_uint32 get_uint32
  decode_header-append n m bs h k = rw (get_uint32-put_uint32 n h, get_uint32-put_uint32 m k) refl

  decode-append :
      (id payload meta rest : Bytes)
      → length id < 2 ^ 32
      → length payload < 2 ^ 32
      → length meta < 2 ^ 32
      → decode empty unmarshal (
          put_uint32 wal_magic
          ++ (put_uint32 (length payload)
              ++ (put_uint32 (length meta)
                  ++ (put_uint32 (length id) ++ (id ++ (payload ++ (meta ++ rest)))))))
        ≡ finish empty unmarshal id payload meta rest
  unfolding decode put_uint32
  decode-append id payload meta rest h k l =
      let bs = put_uint32 (length id) ++ (id ++ (payload ++ (meta ++ rest))) in
      let header =
        put_uint32 wal_magic ++ put_uint32 (length payload) ++ put_uint32 (length meta) in
      through
        (read_full 12 (
          put_uint32 wal_magic
          ++ (put_uint32 (length payload) ++ (put_uint32 (length meta) ++ bs))))
        (decode_header empty unmarshal) header bs
        (read_full-header wal_magic (length payload) (length meta) bs)
        (decode_header-append (length payload) (length meta) bs k l
          ∙ decode_body-append id payload meta rest h)

  finish-filled :
      (id payload meta rest : Bytes) (m : Option Meta)
      → unmarshal meta ≡ some m
      → meta ≢ []
      → finish empty unmarshal id payload meta rest
        ≡ ok (record { id = id; payload = payload; metadata = some (or_empty empty m) }) rest
  unfolding finish
  finish-filled id payload [] rest m e f = absurd (f refl)
  finish-filled id payload (b ∷ meta) rest m e f = rw (e, finish) refl

  module _ (marshal : Meta → Option Bytes) (new_id : Bytes) where
    encode-encoded :
        (msg : Message Meta) (meta : Bytes)
        → marshal (or_empty empty msg.metadata) ≡ some meta
        → encode empty marshal new_id msg
          ≡ some (encoded (id_of empty marshal new_id msg) msg.payload meta)
    unfolding encode
    encode-encoded msg meta e = rw (e, encode) refl

    -- decodeWALRecord reads back what encodeWALRecord wrote, whatever bytes come after it, and leaves
    -- those: the id (or the new one, for a message without), the payload, and the metadata as
    -- json.Unmarshal reads them, where json.Marshal gave at least one byte, json.Unmarshal accepts
    -- them, and the id, the payload and the metadata have each fewer than 2^32 bytes.
    pub decode-encode :
        (msg : Message Meta) (meta rest : Bytes) (m : Option Meta)
        → marshal (or_empty empty msg.metadata) ≡ some meta
        → unmarshal meta ≡ some m
        → meta ≢ []
        → length (id_of empty marshal new_id msg) < 2 ^ 32
        → length msg.payload < 2 ^ 32
        → length meta < 2 ^ 32
        → (bytes : Bytes) × (encode empty marshal new_id msg ≡ some bytes)
          × (decode empty unmarshal (bytes ++ rest)
              ≡ ok
                  (record {
                    id = id_of empty marshal new_id msg;
                    payload = msg.payload;
                    metadata = some (or_empty empty m);
                  })
                  rest)
    decode-encode msg meta rest m written accepted filled h k l =
        let id = id_of empty marshal new_id msg in
        (
          encoded id msg.payload meta,
          encode-encoded msg meta written,
          ap (decode empty unmarshal) (encoded-append id msg.payload meta rest)
              ∙ rw (mod-eq_of_lt h, mod-eq_of_lt k, mod-eq_of_lt l)
                  (decode-append id msg.payload meta rest h k l
                    ∙ finish-filled id msg.payload meta rest m accepted filled),
        )
