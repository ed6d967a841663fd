-- ===== src/Engine/Retry.antt =====
-- writeWithRetry and retryDelay of internal/engine/pipeline.go.
pub mod Attempts
use eventr.Common.{
  Bool, true, false, String, List, [], ◌∷◌, ℕ, zero, suc, ◌+◌, ◌*◌, ◌%◌, ◌^◌, Option, none, some,
  if◌then◌else◌, ltb, leb,
}
use eventr.Common.Int.{ℤ, pos, negsuc, next_ℤ, ltb_ℤ}
use eventr.Common.Text.{◌==◌}
use eventr.Config.Types.{RetryConfig, DeliverySpec}

-- 100 * time.Millisecond, in nanoseconds
abbrev pub base_delay : ℕ
base_delay = 100_000_000

-- The delay in nanoseconds, as the 64 bits that the product leaves. (math.Pow(2, n) is exact in a
-- float64 and fits an int64 for n < 63.)
unfoldable pub retry_delay : ℕ → String → ℕ
retry_delay attempt backoff =
    if backoff == "exponential"
    then 2 ^ attempt * base_delay % 2 ^ 64
    else if backoff == "linear"
    then (attempt + 1) * base_delay % 2 ^ 64
    else base_delay

pub data RetryError {ℓ} (E : Type ℓ) : Type ℓ where
  cancelled : E → RetryError E
  exhausted : ℤ → Option E → RetryError E

-- What was done: the number of calls of sk.Write, the delays waited for, and the error returned.
pub record Outcome {ℓ} (E : Type ℓ) : Type ℓ where
  pub writes : ℕ
  pub delays : List ℕ
  pub error : Option (RetryError E)

module _ {ℓ} {E : Type ℓ} where
  abbrev pub wrote : Outcome E → Outcome E
  wrote o = record o { writes = suc o.writes }

  abbrev pub waited : ℕ → Outcome E → Outcome E
  waited d o = record o { delays = d ∷ o.delays }

  -- `write n` is what sk.Write returns in attempt n, `stop n` the error of the context if it is done
  -- before the delay after attempt n is over.
  module _ (write : ℕ → Option E) (stop : ℕ → Option E) (backoff : String) where
    -- The loop from one attempt on, with the last error and the number of turns that are left.
    unfoldable pub attempt_from : ℤ → ℕ → Option E → ℕ → Outcome E
    attempt_from max_retries attempt last zero = record {
      writes = 0;
      delays = [];
      error = some (exhausted (next_ℤ max_retries) last);
    }
    attempt_from max_retries attempt last (suc left) = elim (write attempt) [
      | none ↦ record { writes = 1; delays = []; error = none }
      | some e ↦
          let rest = attempt_from max_retries (suc attempt) (some e) left in
          if ltb_ℤ (pos attempt) max_retries
          then elim (stop attempt) [
            | some c ↦ record { writes = 1; delays = []; error = some (cancelled c) }
            | none ↦ wrote (waited (retry_delay attempt backoff) rest)
          ]
          else wrote rest
    ]

-- The turns of `for attempt := 0; attempt <= maxRetries; attempt++`.
abbrev pub turns : ℤ → ℕ
turns (pos n) = suc n
turns (negsuc n) = 0

abbrev pub max_retries_of : Option RetryConfig → ℤ
max_retries_of none = pos 0
max_retries_of (some r) = r.max

abbrev pub backoff_of : Option RetryConfig → String
backoff_of none = "exponential"
backoff_of (some r) = if r.backoff == "" then "exponential" else r.backoff

abbrev pub retry_of : Option DeliverySpec → Option RetryConfig
retry_of none = none
retry_of (some d) = d.retry

unfoldable pub write_with_retry {ℓ} :
    {E : Type ℓ} → (ℕ → Option E) → (ℕ → Option E) → Option DeliverySpec → Outcome E
unfolding attempt_from
write_with_retry write stop delivery =
    let max_retries = max_retries_of (retry_of delivery) in
    attempt_from write stop (backoff_of (retry_of delivery)) max_retries 0 none (turns max_retries)
