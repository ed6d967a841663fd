-- ===== src/Tests/Eql.antt =====
-- Writes into a payload of two levels.
use eventr.Common.{String, List, [], ◌∷◌, none, some, ◌≡◌, refl}
use eventr.Common.Text.{string_dec}
use eventr.Config.Value.{Fields, text, object, field, nil}
use eventr.Eql.{set_path, del_path}
use eventr.Eql.Paths.{set_path-get, get_parts, Apart}
use eventr.Eql.Deletes.{del_path-get}
use eventr.Tests.Samples.{ne_of_test}

abbrev payload : Fields
payload = field "user" (object (field "name" (text "ann") nil)) nil

abbrev parts : List String
parts = "user" ∷ "age" ∷ []

set_path-get_example :
    (get_parts parts (set_path (λ s. parts) payload "user.age" (text "7")) ≡ some (text "7"))
    × ((qs : List String)
        → Apart qs parts
        → get_parts qs (set_path (λ s. parts) payload "user.age" (text "7")) ≡ get_parts qs payload)
unfolding string_dec
set_path-get_example =
    set_path-get (λ s. parts) payload "user.age" (text "7") "user" ("age" ∷ [])
      (ne_of_test "user.age" "" refl) refl

del_path-get_example :
    (get_parts parts (del_path (λ s. parts) payload "user.age") ≡ none)
    × ((qs : List String)
        → Apart qs parts
        → get_parts qs (del_path (λ s. parts) payload "user.age") ≡ get_parts qs payload)
unfolding string_dec
del_path-get_example =
    del_path-get (λ s. parts) payload "user.age" "user" ("age" ∷ []) (ne_of_test "user.age" "" refl)
      refl
