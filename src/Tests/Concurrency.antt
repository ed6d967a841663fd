-- ===== src/Tests/Concurrency.antt =====
-- Interleavings of acknowledgements and of the inflight counter.
use mathlib.Core.List.{Memᴰ}
use eventr.Common.{
  false, String, List, [], ◌∷◌, ℕ, ◌-◌, ◌^◌, ◌≡◌, refl, Option, none, some, All, arith, ◌⊎◌, ◌↔◌,
}
use eventr.Common.Int.{pos}
use eventr.Engine.Acks
use eventr.Engine.Acks.{Call, Shared, advance, step_call}
use eventr.Engine.Acks.Once.{ack_once, after}
use eventr.Engine.Inflight
use eventr.Engine.Inflight.{admits}
use eventr.Engine.Inflight.Bound.{run_bounded, admits_wrapped, in_flight, Within, idle_each}

abbrev errors : List (Option String)
errors = none ∷ some "bad" ∷ []

-- The first child counts down between the steps of the second.
abbrev schedule : List ℕ
schedule = 1 ∷ 0 ∷ 1 ∷ 0 ∷ 1 ∷ 1 ∷ []

-- The first of two children is acknowledged twice, and the second not at all.
abbrev twice : List (Option String)
twice = some "bad" ∷ none ∷ []

abbrev one_by_one : List ℕ
one_by_one = 0 ∷ 0 ∷ 0 ∷ 1 ∷ 1 ∷ 1 ∷ []

-- The parent is acknowledged though the second child is still on its way.
twice_runs : (after 2 twice one_by_one).1.acked ≡ some "bad" ∷ []
unfolding Acks.run step_call advance
twice_runs = refl

ack_once_example :
    (a : Option String) × ((after 2 errors schedule).1.acked ≡ a ∷ [])
    × ((a ≡ none) ↔ All (λ e. e ≡ none) errors)
    × ((a ≡ none) ⊎ Memᴰ a errors)
unfolding Acks.run step_call advance
ack_once_example = ack_once errors schedule (omega arith) (omega arith) (refl, (refl, tt))

run_bounded_example :
    let (ps, inflight) = Inflight.run (pos 2) (0 ∷ 1 ∷ 1 ∷ 0 ∷ 0 ∷ []) (idle_each 3) 0 in
    (inflight ≡ in_flight ps) × Within (pos 2) inflight
run_bounded_example = run_bounded (pos 2) 3 (0 ∷ 1 ∷ 1 ∷ 0 ∷ 0 ∷ [])

admits_wrapped_example : admits (pos (2 ^ 31)) 0 ≡ false
admits_wrapped_example = admits_wrapped (2 ^ 31 - 1) 0 (omega arith)
