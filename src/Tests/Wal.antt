-- ===== src/Tests/Wal.antt =====
-- A record with metadata that are a single number.
use eventr.Common.{[], ◌∷◌, ◌++◌, ℕ, ◌≡◌, refl, Option, none, some, arith}
use eventr.Buffer.Wal.{Bytes, Message, ok, encode, decode}
use eventr.Buffer.Wal.RoundTrip.{decode-encode}

abbrev message : Message ℕ
message = record { id = 65 ∷ []; payload = 1 ∷ 2 ∷ []; metadata = some 7 }

abbrev marshal : ℕ → Option Bytes
marshal n = some (n ∷ [])

abbrev unmarshal : Bytes → Option (Option ℕ)
unmarshal [] = none
unmarshal (n ∷ bs) = some (some n)

decode-encode_example :
    (bytes : Bytes) × (encode 0 marshal [] message ≡ some bytes)
    × (decode 0 unmarshal (bytes ++ 9 ∷ []) ≡ ok message (9 ∷ []))
decode-encode_example =
    decode-encode 0 unmarshal marshal [] message (7 ∷ []) (9 ∷ []) (some 7) refl refl (λ e. cc)
      (omega arith) (omega arith) (omega arith)
