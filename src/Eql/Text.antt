-- ===== src/Eql/Text.antt =====
-- The functions of Go's package strings that internal/eql/eql.go calls, on the characters of a text,
-- and trimRoot.
use Prim.Native.Char.{code}
use eventr.Common.{String, Bool, true, false, ◌&&◌, eqb, if◌then◌else◌}
use eventr.Common.Codes.{is_space}
use eventr.Common.Text.{◌==◌}

-- strings.HasPrefix(s, p), with the prefix first.
unfoldable pub has_prefix : String → String → Bool
has_prefix String.[] s = true
has_prefix (String.◌∷◌ c p) String.[] = false
has_prefix (String.◌∷◌ c p) (String.◌∷◌ d s) = eqb (code c) (code d) && has_prefix p s

-- The text after as many characters as p has.
abbrev drop_text : String → String → String
drop_text String.[] s = s
drop_text (String.◌∷◌ c p) String.[] = ""
drop_text (String.◌∷◌ c p) (String.◌∷◌ d s) = drop_text p s

unfoldable pub trim_prefix : String → String → String
unfolding has_prefix
trim_prefix p s = if has_prefix p s then drop_text p s else s

abbrev reverse_onto : String → String → String
reverse_onto String.[] done = done
reverse_onto (String.◌∷◌ c s) done = reverse_onto s (String.◌∷◌ c done)

abbrev reverse_text : String → String
reverse_text s = reverse_onto s ""

unfoldable pub has_suffix : String → String → Bool
unfolding has_prefix
has_suffix p s = has_prefix (reverse_text p) (reverse_text s)

unfoldable pub trim_suffix : String → String → String
unfolding trim_prefix
trim_suffix p s = reverse_text (trim_prefix (reverse_text p) (reverse_text s))

-- strings.Trim(s, cutset) for a cutset of one character, on the left.
abbrev trim_left_of : String → String → String
trim_left_of cut String.[] = ""
trim_left_of cut (String.◌∷◌ c s) =
    let rest = trim_left_of cut s in if (String.◌∷◌ c "") == cut then rest else String.◌∷◌ c s

unfoldable pub trim_of : String → String → String
trim_of cut s = reverse_text (trim_left_of cut (reverse_text (trim_left_of cut s)))

-- strings.TrimSpace
abbrev trim_left_space : String → String
trim_left_space String.[] = ""
trim_left_space (String.◌∷◌ c s) =
    let rest = trim_left_space s in if is_space (code c) then rest else String.◌∷◌ c s

unfoldable pub trim_space_of : String → String
trim_space_of s = reverse_text (trim_left_space (reverse_text (trim_left_space s)))

unfoldable pub trim_root : String → String → String
unfolding has_prefix has_suffix trim_prefix trim_suffix trim_of
trim_root path root =
    let p = trim_prefix "." (trim_prefix root path) in
    if has_prefix "[\"" p
    then trim_suffix "\"]" (trim_prefix "[\"" p)
    else if has_prefix "[" p && has_suffix "]" p
    then trim_of "\"" (trim_suffix "]" (trim_prefix "[" p))
    else p
