-- ===== src/Engine/Acks/Counts.antt =====
-- Tallies of the calls of the closures (internal/engine/dispatch.go) by place, and the split of a
-- step at the call that makes it.
use eventr.Common.{
  List, [], ◌∷◌, ◌++◌, ℕ, zero, suc, ◌+◌, ◌≡◌, refl, ◌⊎◌, inl, inr, Option, none, some, arith,
}
use eventr.Engine.Acks.{Place, begin, won, counting, last, done, Call, Shared, advance, step_call}

abbrev pub open_place : Place → ℕ
open_place begin = 1
open_place won = 1
open_place counting = 1
open_place last = 0
open_place done = 0

abbrev pub last_place : Place → ℕ
last_place begin = 0
last_place won = 0
last_place counting = 0
last_place last = 1
last_place done = 0

abbrev pub won_place : Place → ℕ
won_place begin = 0
won_place won = 1
won_place counting = 0
won_place last = 0
won_place done = 0

module _ {ℓ} {E : Type ℓ} where
  unfoldable pub tally : (Call E → ℕ) → List (Call E) → ℕ
  tally f [] = 0
  tally f (c ∷ cs) = f c + tally f cs

  pub tally-split :
      (f : Call E → ℕ) (pre : List (Call E)) (c : Call E) (post : List (Call E))
      → tally f (pre ++ c ∷ post) ≡ tally f pre + tally f post + f c
  unfolding tally
  tally-split f [] c post = omega arith
  tally-split f (d ∷ pre) c post = omega (arith, tally-split f pre c post)

  -- Calls that have not counted down.
  abbrev pub is_open : Call E → ℕ
  is_open c = open_place c.place

  -- Calls that are about to acknowledge the parent.
  abbrev pub is_last : Call E → ℕ
  is_last c = last_place c.place

  -- Calls that won the swap and have not stored their error.
  abbrev pub is_won : Call E → ℕ
  is_won c = won_place c.place

  abbrev pub failed : Option E → ℕ
  failed none = 0
  failed (some e) = 1

  abbrev pub noisy_at : Place → Option E → ℕ
  noisy_at begin e = 0
  noisy_at won e = failed e
  noisy_at counting e = failed e
  noisy_at last e = failed e
  noisy_at done e = failed e

  -- Calls with an error that are past the swap.
  abbrev pub is_noisy : Call E → ℕ
  is_noisy c = noisy_at c.place c.error

  abbrev pub blank_at : Place → Option E → ℕ
  blank_at won none = 1
  blank_at won (some e) = 0
  blank_at begin e = 0
  blank_at counting e = 0
  blank_at last e = 0
  blank_at done e = 0

  -- Calls that won the swap with no error: there are none.
  abbrev pub is_blank : Call E → ℕ
  is_blank c = blank_at c.place c.error

  -- The list and the variables after the step of the call that stands between `pre` and `post`.
  abbrev pub stepped : List (Call E) → Call E → List (Call E) → Shared E → List (Call E) × Shared E
  stepped pre c post s =
      let (p, s') = advance c.place c.error s in (pre ++ record c { place = p } ∷ post, s')

  -- A step changes nothing, or advances one call.
  pub step_call-split :
      (i : ℕ) (cs : List (Call E)) (s : Shared E)
      → (step_call i cs s ≡ (cs, s))
        ⊎ (pre : List (Call E)) × (c : Call E) × (post : List (Call E)) × (cs ≡ pre ++ c ∷ post)
          × (step_call i cs s ≡ stepped pre c post s)
  unfolding step_call
  step_call-split i [] s = inl refl
  step_call-split zero (c ∷ cs) s = inr ([], c, cs, refl, refl)
  step_call-split (suc i) (c ∷ cs) s = elim (step_call-split i cs s) [
    | inl e ↦ inl (rw e)
    | inr (pre, d, post, e, f) ↦ inr (c ∷ pre, d, post, rw e, rw f)
  ]
