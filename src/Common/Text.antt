-- ===== src/Common/Text.antt =====
-- Equality of texts as a decision. It stays shut in proofs, where a split on `s == t` yields the
-- equation or its negation, and is unfolded in tests.
use Prim.Native.String.{String}
use mathlib.Core.Logic.{ite, dite}
use mathlib.Core.Bool.{Bool, true, false, Bool-discrete}
use mathlib.Core.List.{List, [], ◌∷◌}
use text.Mathlib.Text
use text.Mathlib.TextEquality.{eq_iff}

unfoldable pub string_dec : Discrete String
string_dec s t =
    dite (Bool-discrete (Text.◌==◌ s t) true) (λ same. yes ((eq_iff s t).0 same))
      (λ differ. no (λ p. differ ((eq_iff s t).1 p)))

infix 50 ◌==◌
abbrev pub ◌==◌ : String → String → Bool
s == t = ite (string_dec s t) true false

-- s in xs
abbrev pub contains : List String → String → Bool
contains [] s = false
contains (x ∷ xs) s = ite (string_dec s x) true (contains xs s)
