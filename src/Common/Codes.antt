-- ===== src/Common/Codes.antt =====
-- Texts as lists of code points, for strings.ToLower, strings.TrimSpace and comparisons with words.
use Prim.Native.Char.{code}
use Prim.Native.String.{String}
use Prim.Native.Nat.{ℕ, ◌+◌}
use mathlib.Core.Bool.{Bool, true, false, ◌&&◌, ◌||◌}
use mathlib.Core.List.{List, [], ◌∷◌, map, reverse}
use eventr.Common.Tests.{leb, eqb, if◌then◌else◌}

abbrev pub codes : String → List ℕ
codes String.[] = []
codes (String.◌∷◌ c s) = code c ∷ codes s

abbrev pub same_codes : List ℕ → List ℕ → Bool
same_codes [] [] = true
same_codes [] (d ∷ ds) = false
same_codes (c ∷ cs) [] = false
same_codes (c ∷ cs) (d ∷ ds) = eqb c d && same_codes cs ds

-- unicode.ToLower as far as its result is an ASCII letter: A to Z, the dotted capital I and the
-- Kelvin sign. Other letters stay, which no comparison with an ASCII word can tell.
unfoldable pub lower : ℕ → ℕ
lower c =
    if leb 65 c && leb c 90
    then c + 32
    else if eqb c 0x130
    then 105
    else if eqb c 0x212a
    then 107
    else c

-- unicode.IsSpace
unfoldable pub is_space : ℕ → Bool
is_space c =
    leb 9 c && leb c 13
    || eqb c 32
    || eqb c 0x85
    || eqb c 0xa0
    || eqb c 0x1680
    || leb 0x2000 c && leb c 0x200a
    || eqb c 0x2028
    || eqb c 0x2029
    || eqb c 0x202f
    || eqb c 0x205f
    || eqb c 0x3000

unfoldable pub trim_left : List ℕ → List ℕ
trim_left [] = []
trim_left (c ∷ cs) = let rest = trim_left cs in if is_space c then rest else c ∷ cs

unfoldable pub trim_space : List ℕ → List ℕ
unfolding trim_left is_space
trim_space cs = reverse (trim_left (reverse (trim_left cs)))

unfoldable pub to_lower : List ℕ → List ℕ
unfolding lower
to_lower = map lower
