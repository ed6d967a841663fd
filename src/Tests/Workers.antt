-- ===== src/Tests/Workers.antt =====
-- Worker shares and retries.
use eventr.Common.{
  String, List, [], ◌∷◌, ℕ, zero, suc, ◌≤◌, ◌<◌, ◌≡◌, ◌≢◌, refl, Option, none, some, arith,
}
use eventr.Common.Int.{pos, negsuc}
use eventr.Common.Dict.{lookup}
use eventr.Common.Text.{string_dec}
use eventr.Config.Types.{DeliverySpec}
use eventr.Engine.Workers.{Transform, limit, allocate_transform_workers, total_requested}
use eventr.Engine.Workers.Budget.{allocate_transform_workers-le, total}
use eventr.Engine.Workers.Shares.{allocate_transform_workers-fair}
use eventr.Engine.Workers.Starved.{allocate_transform_workers-starved}
use eventr.Engine.Retry.{attempt_from, write_with_retry, exhausted}
use eventr.Engine.Retry.Attempts.{
  write_with_retry-success, write_with_retry-failure, write_with_retry_nil, delays_from,
}
use eventr.Tests.Samples.{retry_twice, ne_of_test}

abbrev wants : String → Transform
wants id = record { id = id; workers = pos 3 }

abbrev three : List Transform
three = wants "a" ∷ wants "b" ∷ wants "c" ∷ []

allocate_transform_workers-le_example :
    total (allocate_transform_workers three (pos 4)) ≤ limit (pos 4)
allocate_transform_workers-le_example = allocate_transform_workers-le three (pos 4)

apart : (wants "b").id ≢ (wants "c").id
unfolding string_dec
apart = ne_of_test _ _ refl

allocate_transform_workers-fair_example :
    (lookup "b" (allocate_transform_workers three (pos 4)) ≡ some 1) × (0 < 1)
unfolding total_requested
allocate_transform_workers-fair_example =
    allocate_transform_workers-fair (wants "b") (wants "c" ∷ []) (apart, tt) (wants "a" ∷ [])
      (pos 4) (omega arith) (omega arith)

allocate_transform_workers-starved_example :
    lookup "b" (allocate_transform_workers three (pos 2)) ≡ some 0
unfolding total_requested
allocate_transform_workers-starved_example =
    allocate_transform_workers-starved (wants "b") (wants "c" ∷ []) (apart, tt) (wants "a" ∷ [])
      (pos 2) (omega arith) (omega arith) (omega arith)

abbrev third_time : ℕ → Option String
third_time zero = some "busy"
third_time (suc zero) = some "busy"
third_time (suc (suc n)) = none

never : (n : ℕ) → n < 2 → third_time n ≢ none
never zero h = λ e. cc
never (suc zero) h = λ e. cc
never (suc (suc n)) h = absurd (omega arith)

write_with_retry-success_example : write_with_retry third_time (λ n. none) retry_twice ≡ record {
  writes = 3;
  delays = delays_from third_time (λ n. none) "exponential" 0 2;
  error = none;
}
unfolding string_dec
write_with_retry-success_example =
    write_with_retry-success third_time (λ n. none) retry_twice (λ n. refl) 2 2 refl (omega arith)
      never refl

write_with_retry-failure_example :
    write_with_retry {E = String} (λ n. some "down") (λ n. none) retry_twice ≡ record {
      writes = 3;
      delays = delays_from {E = String} (λ n. some "down") (λ n. none) "exponential" 0 2;
      error = some (exhausted (pos 3) (some "down"));
    }
unfolding string_dec
write_with_retry-failure_example =
    write_with_retry-failure (λ n. some "down") (λ n. none) retry_twice (λ n. refl) 2 "down" refl
      (λ n h e. cc) refl

abbrev retry_less : Option DeliverySpec
retry_less =
    some (record { retry = some (record { max = negsuc 0; backoff = "" }); timeout = ""; dlq = "" })

write_with_retry_nil_example :
    let o = write_with_retry third_time (λ n. none) retry_twice in
    (o.writes ≤ 3)
    × (o.error ≡ none
        → (k : ℕ) × (o.writes ≡ suc k)
          × (third_time k ≡ none)
          × ((n : ℕ) → n < k → third_time n ≢ none))
write_with_retry_nil_example = write_with_retry_nil third_time (λ n. none) retry_twice

-- A negative number of retries: the sink is not called, and the error wraps nil.
retry_less_runs :
    write_with_retry {E = String} (λ n. none) (λ n. none) retry_less
    ≡ record { writes = 0; delays = []; error = some (exhausted (pos 0) none) }
unfolding write_with_retry attempt_from
retry_less_runs = refl
