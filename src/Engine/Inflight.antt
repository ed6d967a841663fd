-- ===== src/Engine/Inflight.antt =====
-- acquireInflight and releaseInflight of internal/engine/inflight.go. Each source goroutine loads the
-- counter, tests it against the limit, and tries a CompareAndSwap; a schedule says which steps next.
pub mod Bound
use eventr.Common.{
  Bool, true, false, ◌||◌, List, [], ◌∷◌, ℕ, zero, suc, ◌+◌, ◌-◌, ◌%◌, ◌^◌, if◌then◌else◌, eqb, ltb,
}
use eventr.Common.Int.{ℤ, pos, negsuc, sub_ℕ, ltb_ℤ}

-- int32(n) for a Go int n that is positive
unfoldable pub int32 : ℕ → ℤ
int32 n = let r = n % 2 ^ 32 in if ltb r (2 ^ 31) then pos r else sub_ℕ r (2 ^ 32)

-- `max <= 0 || cur < int32(max)`
unfoldable pub admits : ℤ → ℕ → Bool
unfolding int32
admits (pos zero) cur = true
admits (pos (suc n)) cur = ltb_ℤ (pos cur) (int32 (suc n))
admits (negsuc n) cur = true

-- Before the load, between the load and the swap, with a message in flight, after its release.
pub data Place : Type 0 where
  idle : Place
  loaded : ℕ → Place
  holding : Place
  released : Place

unfoldable pub advance : ℤ → Place → ℕ → Place × ℕ
unfolding admits
advance max idle inflight = (if admits max inflight then loaded inflight else idle, inflight)
advance max (loaded cur) inflight =
    if eqb inflight cur then (holding, cur + 1) else (idle, inflight)
advance max holding inflight = (released, inflight - 1)
advance max released inflight = (released, inflight)

-- Goroutine i steps. A number past the end stands for none.
unfoldable pub step_at : ℤ → ℕ → List Place → ℕ → List Place × ℕ
unfolding advance
step_at max i [] inflight = ([], inflight)
step_at max zero (p ∷ ps) inflight = let (p', n) = advance max p inflight in (p' ∷ ps, n)
step_at max (suc i) (p ∷ ps) inflight = let (ps', n) = step_at max i ps inflight in (p ∷ ps', n)

unfoldable pub run : ℤ → List ℕ → List Place → ℕ → List Place × ℕ
unfolding step_at
run max [] ps inflight = (ps, inflight)
run max (i ∷ schedule) ps inflight =
    let (ps', n) = step_at max i ps inflight in run max schedule ps' n
