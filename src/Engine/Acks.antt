-- ===== src/Engine/Acks.antt =====
-- The acknowledgement of a parent message by its children: the ackFn closures of dispatchFrom
-- (internal/engine/pipeline.go) and of dispatchTransformOutputs (internal/engine/dispatch.go), which
-- share `pending`, `errStored` and `firstErr`. A closure runs once for each call of its child's Ack,
-- which may be more than one call, in any goroutine. Each atomic operation of a running closure is
-- one step, and a schedule says which call steps next.
pub mod Counts
pub mod Invariant
pub mod Once
use eventr.Common.{
  Bool, true, false, List, [], ◌∷◌, ◌++◌, map, ℕ, zero, suc, ◌-◌, ◌^◌, ◌%◌, Option, none, some,
  length, eqb, if◌then◌else◌,
}

-- Where a call of a closure stands: before the CompareAndSwap of errStored, before firstErr.Store
-- (the swap was won), before AddInt32, before firstErr.Load and parent.Ack (pending fell to 0), done.
pub data Place : Type 0 where
  begin won counting last done : Place

-- A call of the Ack of a child, with its error; `none` is nil.
pub record Call {ℓ} (E : Type ℓ) : Type ℓ where
  pub place : Place
  pub error : Option E

-- The variables that the closures share: `pending` is the bit pattern of an int32, and `acked` lists the calls of parent.Ack, the latest last.
pub record Shared {ℓ} (E : Type ℓ) : Type ℓ where
  pub pending : ℕ
  pub err_stored : Bool
  pub first_err : Option E
  pub acked : List (Option E)

-- AddInt32(&pending, -1)
abbrev pub decrement : ℕ → ℕ
decrement zero = 2 ^ 32 - 1
decrement (suc n) = n

module _ {ℓ} {E : Type ℓ} where
  abbrev pub started : Option E → Call E
  started e = record { place = begin; error = e }

  -- The variables as the children are sent, `pending` being their number.
  abbrev pub fresh : ℕ → Shared E
  fresh n = record { pending = n % 2 ^ 32; err_stored = false; first_err = none; acked = [] }

  -- One atomic step of a call.
  unfoldable pub advance : Place → Option E → Shared E → Place × Shared E
  advance begin none s = (counting, s)
  advance begin (some e) s =
      if s.err_stored then (counting, s) else (won, record s { err_stored = true })
  advance won e s = (counting, record s { first_err = e })
  advance counting e s =
      let n = decrement s.pending in (if eqb n 0 then last else done, record s { pending = n })
  advance last e s = (done, record s { acked = s.acked ++ s.first_err ∷ [] })
  advance done e s = (done, s)

  -- Call i steps. A number past the end stands for no call.
  unfoldable pub step_call : ℕ → List (Call E) → Shared E → List (Call E) × Shared E
  unfolding advance
  step_call i [] s = ([], s)
  step_call zero (c ∷ cs) s =
      let (p, s') = advance c.place c.error s in (record c { place = p } ∷ cs, s')
  step_call (suc i) (c ∷ cs) s = let (cs', s') = step_call i cs s in (c ∷ cs', s')

  unfoldable pub run : List ℕ → List (Call E) → Shared E → List (Call E) × Shared E
  run [] cs s = (cs, s)
  run (i ∷ schedule) cs s = let (cs', s') = step_call i cs s in run schedule cs' s'
