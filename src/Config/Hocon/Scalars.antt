-- ===== src/Config/Hocon/Scalars.antt =====
-- strVal, intVal, boolVal, stringSlice, stringMap and mapAny of internal/config/hocon.go.
use eventr.Common.{Bool, false, String, List, [], ◌∷◌, Option, none, some, if◌then◌else◌}
use eventr.Common.Int.{ℤ, pos}
use eventr.Common.Text.{◌==◌}
use eventr.Common.Dict.{Dict}
use eventr.Config.Value.{
  Value, null, text, int, float, bool, list, object, Items, end, item, Fields, nil, field,
  as_object,
}

unfoldable pub int_val : Value → ℤ
int_val (int n) = n
int_val (float s n) = n
int_val null = pos 0
int_val (text s) = pos 0
int_val (bool b) = pos 0
int_val (list xs) = pos 0
int_val (object m) = pos 0

unfoldable pub bool_val : Value → Bool
bool_val (bool b) = b
bool_val null = false
bool_val (text s) = false
bool_val (int n) = false
bool_val (float s n) = false
bool_val (list xs) = false
bool_val (object m) = false

-- `v.(bool)`, `v.(string)` and `v.([]any)`, with whether they hold.
abbrev pub as_bool : Value → Option Bool
as_bool (bool b) = some b
as_bool null = none
as_bool (text s) = none
as_bool (int n) = none
as_bool (float s n) = none
as_bool (list xs) = none
as_bool (object m) = none

abbrev pub text_or_empty : Value → String
text_or_empty (text s) = s
text_or_empty null = ""
text_or_empty (int n) = ""
text_or_empty (float s n) = ""
text_or_empty (bool b) = ""
text_or_empty (list xs) = ""
text_or_empty (object m) = ""

abbrev pub as_list : Value → Option Items
as_list (list xs) = some xs
as_list null = none
as_list (text s) = none
as_list (int n) = none
as_list (float s n) = none
as_list (bool b) = none
as_list (object m) = none

-- mapAny
unfoldable pub map_any : Value → Option Fields
map_any v = as_object v

abbrev pub fields_or_nil : Option Fields → Fields
fields_or_nil none = nil
fields_or_nil (some m) = m

module _ (sprint : Value → String) (split : String → List String) where
  unfoldable pub str_val : Value → String
  str_val null = ""
  str_val (text s) = s
  str_val (int n) = sprint (int n)
  str_val (float s n) = sprint (float s n)
  str_val (bool b) = sprint (bool b)
  str_val (list xs) = sprint (list xs)
  str_val (object m) = sprint (object m)

  -- stringMap: fmt.Sprint of a string is the string, and of nil a text of its own.
  unfoldable pub sprint_any : Value → String
  sprint_any (text s) = s
  sprint_any null = sprint null
  sprint_any (int n) = sprint (int n)
  sprint_any (float s n) = sprint (float s n)
  sprint_any (bool b) = sprint (bool b)
  sprint_any (list xs) = sprint (list xs)
  sprint_any (object m) = sprint (object m)

  unfoldable pub string_map : Fields → Dict String
  unfolding sprint_any
  string_map nil = []
  string_map (field k v m) = (k, sprint_any v) ∷ string_map m

  abbrev pub strings : Items → List String
  strings end = []
  strings (item v xs) = str_val v ∷ strings xs

  unfoldable pub string_slice : Value → List String
  string_slice (list xs) = strings xs
  string_slice (text s) = if s == "" then [] else split s
  string_slice null = []
  string_slice (int n) = []
  string_slice (float s n) = []
  string_slice (bool b) = []
  string_slice (object m) = []
