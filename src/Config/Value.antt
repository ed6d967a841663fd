-- ===== src/Config/Value.antt =====
-- `any` values as the configuration trees and the decoded payloads hold them (Go's `map[string]any`,
-- `[]any` and scalars). A floating-point number stands as the two things that the code reads of it:
-- the text that fmt.Sprint prints, and the integer to which `int(t)` truncates it.
use eventr.Common.{◌≡◌, refl, ite, String, Bool, Option, none, some, arith}
use eventr.Common.Int.{ℤ}
use eventr.Common.Text.{string_dec}

mutual
  pub data Value : Type 0 where
    null : Value
    text : String → Value
    int : ℤ → Value
    float : String → ℤ → Value
    bool : Bool → Value
    list : Items → Value
    object : Fields → Value

  pub data Items : Type 0 where
    end : Items
    item : Value → Items → Items

  pub data Fields : Type 0 where
    nil : Fields
    field : String → Value → Fields → Fields

-- `m[k]`, with whether the key is there.
unfoldable pub find : String → Fields → Option Value
find k nil = none
find k (field j v m) = ite (string_dec k j) (some v) (find k m)

-- `m[k]` as a value: a missing key reads as nil.
unfoldable pub at : String → Fields → Value
unfolding find
at k m = elim (find k m) [ none ↦ null | some v ↦ v ]

-- `m[k] = v`
unfoldable pub put : String → Value → Fields → Fields
put k v nil = field k v nil
put k v (field j w m) = ite (string_dec k j) (field k v m) (field j w (put k v m))

-- `delete(m, k)`
unfoldable pub remove : String → Fields → Fields
remove k nil = nil
remove k (field j w m) = let rest = remove k m in ite (string_dec k j) rest (field j w rest)

-- `v.(map[string]any)`
abbrev pub as_object : Value → Option Fields
as_object (object m) = some m
as_object null = none
as_object (text s) = none
as_object (int n) = none
as_object (float s n) = none
as_object (bool b) = none
as_object (list xs) = none

pub find-put :
    (j k : String) (v : Value) (m : Fields)
    → find j (put k v m) ≡ ite (string_dec j k) (some v) (find j m)
unfolding find put
find-put j k v nil = refl
find-put j k v (field i w m) = ground (arith, find-put j k v m)

pub find-remove :
    (j k : String) (m : Fields) → find j (remove k m) ≡ ite (string_dec j k) none (find j m)
unfolding find remove
find-remove j k nil = ground arith
find-remove j k (field i w m) = ground (arith, find-remove j k m)
