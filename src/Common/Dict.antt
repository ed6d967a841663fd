-- ===== src/Common/Dict.antt =====
-- Go maps with text keys, as association lists: the first entry of a key counts, and a write
-- replaces it in place. Reading a missing key of a map with a zero value goes by `get_or`.
use Prim.Native.String.{String}
use mathlib.Core.Path.{◌≡◌, refl}
use mathlib.Core.Logic.{ite}
use mathlib.Core.Bool.{Bool, true, false}
use mathlib.Core.Option.{Option, none, some}
use mathlib.Core.List.{List, [], ◌∷◌}
use native.Mathlib.Omega.{arith}
use eventr.Common.Text.{string_dec}

abbrev pub Dict {ℓ} : Type ℓ → Type ℓ
Dict V = List (String × V)

module _ {ℓ} {V : Type ℓ} where
  unfoldable pub lookup : String → Dict V → Option V
  lookup k [] = none
  lookup k ((j, v) ∷ m) = ite (string_dec k j) (some v) (lookup k m)

  unfoldable pub insert : String → V → Dict V → Dict V
  insert k v [] = (k, v) ∷ []
  insert k v ((j, w) ∷ m) = ite (string_dec k j) ((k, v) ∷ m) ((j, w) ∷ insert k v m)

  -- `delete(m, k)`. Every entry of the key goes; a Go map has at most one.
  unfoldable pub erase : String → Dict V → Dict V
  erase k [] = []
  erase k ((j, w) ∷ m) = let rest = erase k m in ite (string_dec k j) rest ((j, w) ∷ rest)

  abbrev pub has : String → Dict V → Bool
  has k m = elim (lookup k m) [ none ↦ false | some v ↦ true ]

  abbrev pub get_or : String → V → Dict V → V
  get_or k d m = elim (lookup k m) [ none ↦ d | some v ↦ v ]

  pub lookup-insert :
      (j k : String) (v : V) (m : Dict V)
      → lookup j (insert k v m) ≡ ite (string_dec j k) (some v) (lookup j m)
  unfolding lookup insert
  lookup-insert j k v [] = refl
  lookup-insert j k v ((i, w) ∷ m) = ground (arith, lookup-insert j k v m)

  pub lookup-erase :
      (j k : String) (m : Dict V) → lookup j (erase k m) ≡ ite (string_dec j k) none (lookup j m)
  unfolding lookup erase
  lookup-erase j k [] = ground arith
  lookup-erase j k ((i, w) ∷ m) = ground (arith, lookup-erase j k m)
