-- ===== src/Engine/Inflight/Bound.antt =====
-- The counter of internal/engine/inflight.go counts the messages in flight, and keeps to its limit.
use eventr.Common.{
  true, false, List, [], ◌∷◌, ℕ, zero, suc, ◌+◌, ◌-◌, ◌%◌, ◌^◌, ◌≤◌, ◌<◌, ◌≡◌, refl, arith, eqb,
  All, Bool-cases, inl, inr,
}
use native.Mathlib.Nat.{mod-le, mod-lt}
use eventr.Common.Int.{ℤ, pos, negsuc, pos_part}
use eventr.Engine.Inflight.{
  Place, idle, loaded, holding, released, int32, admits, advance, step_at, run,
}

abbrev holds : Place → ℕ
holds idle = 0
holds (loaded cur) = 0
holds holding = 1
holds released = 0

-- The goroutines with a message in flight.
abbrev pub in_flight : List Place → ℕ
in_flight [] = 0
in_flight (p ∷ ps) = holds p + in_flight ps

-- A value that a goroutine has loaded passed the test.
abbrev Tested : ℤ → Place → Type 0
Tested max idle = Unit
Tested max (loaded cur) = admits max cur ≡ true
Tested max holding = Unit
Tested max released = Unit

int32-le : (n : ℕ) → pos_part (int32 n) ≤ n
unfolding int32
int32-le n = ground (arith, mod-le n (2 ^ 32))

admits-lt : (n cur : ℕ) → admits (pos (suc n)) cur ≡ true → cur < suc n
unfolding admits
admits-lt n cur h = ground (arith, int32-le (suc n))

-- The limit where there is one.
abbrev pub Within : ℤ → ℕ → Type 0
Within (pos zero) inflight = Unit
Within (pos (suc n)) inflight = inflight ≤ suc n
Within (negsuc n) inflight = Unit

Within-suc : (max : ℤ) (cur : ℕ) → admits max cur ≡ true → Within max (cur + 1)
Within-suc (pos zero) cur h = tt
Within-suc (pos (suc n)) cur h = omega (arith, admits-lt n cur h)
Within-suc (negsuc n) cur h = tt

Within-pred : (max : ℤ) (n : ℕ) → Within max n → Within max (n - 1)
Within-pred (pos zero) n h = tt
Within-pred (pos (suc m)) n h = omega arith
Within-pred (negsuc m) n h = tt

advance_keeps :
    (max : ℤ) (p : Place) (others inflight : ℕ)
    → inflight ≡ others + holds p
    → Tested max p
    → Within max inflight
    → let (p', n) = advance max p inflight in (n ≡ others + holds p') × Tested max p' × Within max n
unfolding advance
advance_keeps max idle others inflight e t w = elim (Bool-cases (admits max inflight)) [
  | inl fits ↦ rw fits (e, fits, w)
  | inr full ↦ rw full (e, tt, w)
]
advance_keeps max (loaded cur) others inflight e t w = elim (Bool-cases (eqb inflight cur)) [
  | inl same ↦ rw same (ground arith, tt, Within-suc max cur t)
  | inr moved ↦ rw moved (e, tt, w)
]
advance_keeps max holding others inflight e t w = (omega arith, tt, Within-pred max inflight w)
advance_keeps max released others inflight e t w = (e, tt, w)

step_at_keeps :
    (max : ℤ) (i : ℕ) (ps : List Place) (others inflight : ℕ)
    → inflight ≡ others + in_flight ps
    → All (Tested max) ps
    → Within max inflight
    → let (ps', n) = step_at max i ps inflight in
      (n ≡ others + in_flight ps') × All (Tested max) ps' × Within max n
unfolding step_at
step_at_keeps max i [] others inflight e t w = (e, tt, w)
step_at_keeps max zero (p ∷ ps) others inflight e (t, ts) w =
    let k = advance_keeps max p (others + in_flight ps) inflight (omega arith) t w in
    (omega (arith, k.0), (k.1, ts), k.2)
step_at_keeps max (suc i) (p ∷ ps) others inflight e (t, ts) w =
    let k = step_at_keeps max i ps (others + holds p) inflight (omega arith) ts w in
    (omega (arith, k.0), (t, k.1), k.2)

pub idle_each : ℕ → List Place
idle_each zero = []
idle_each (suc n) = idle ∷ idle_each n

in_flight-idle_each : (n : ℕ) → in_flight (idle_each n) ≡ 0
unfolding idle_each
in_flight-idle_each zero = refl
in_flight-idle_each (suc n) = omega (arith, in_flight-idle_each n)

Tested-idle_each : (max : ℤ) (n : ℕ) → All (Tested max) (idle_each n)
unfolding idle_each
Tested-idle_each max zero = tt
Tested-idle_each max (suc n) = (tt, Tested-idle_each max n)

run_keeps :
    (max : ℤ) (schedule : List ℕ) (ps : List Place) (inflight : ℕ)
    → inflight ≡ in_flight ps
    → All (Tested max) ps
    → Within max inflight
    → let (ps', n) = run max schedule ps inflight in (n ≡ in_flight ps') × Within max n
unfolding run
run_keeps max [] ps inflight e t w = (e, w)
run_keeps max (i ∷ schedule) ps inflight e t w =
    let k = step_at_keeps max i ps 0 inflight (omega arith) t w in
    run_keeps max schedule _ _ (omega (arith, k.0)) k.1 k.2

Within-zero : (max : ℤ) → Within max 0
Within-zero (pos zero) = tt
Within-zero (pos (suc n)) = omega arith
Within-zero (negsuc n) = tt

-- Under every schedule of n goroutines that acquire and release once each, the counter is the number
-- of messages in flight, and it never passes a positive limit.
pub run_bounded :
    (max : ℤ) (n : ℕ) (schedule : List ℕ)
    → let (ps, inflight) = run max schedule (idle_each n) 0 in
      (inflight ≡ in_flight ps) × Within max inflight
run_bounded max n schedule =
    run_keeps max schedule (idle_each n) 0 (omega (arith, in_flight-idle_each n))
      (Tested-idle_each max n) (Within-zero max)

-- A limit whose low 32 bits are 2^31 or more is converted to a negative int32, so that the test
-- passes for no value of the counter: no message is ever admitted.
pub admits_wrapped : (n cur : ℕ) → 2 ^ 31 ≤ suc n % 2 ^ 32 → admits (pos (suc n)) cur ≡ false
unfolding admits
admits_wrapped n cur h = ground (arith, mod-lt (suc n) {m = 2 ^ 32} (omega arith))
