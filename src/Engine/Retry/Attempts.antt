-- ===== src/Engine/Retry/Attempts.antt =====
-- How often writeWithRetry (internal/engine/pipeline.go) calls the sink.
use eventr.Common.{
  String, List, [], ◌∷◌, ℕ, zero, suc, ◌+◌, ◌*◌, ◌^◌, ◌<◌, ◌≤◌, ◌≡◌, ◌≢◌, inl, inr, Option, none,
  some, arith, Option-cases, subst, sym, ◌∙◌, true, false, refl, if_elim, option_elim,
}
use native.Mathlib.Nat.{add-zero, zero-add, pow-suc, pow-le-pow_right}
use eventr.Common.Int.{ℤ, pos, ltb_ℤ}
use eventr.Common.Text.{string_dec}
use eventr.Config.Types.{DeliverySpec}
use eventr.Engine.Retry.{
  exhausted, retry_delay, attempt_from, write_with_retry, max_retries_of, retry_of, backoff_of,
  Outcome, wrote, waited, turns,
}

module _ {ℓ} {E : Type ℓ} (write : ℕ → Option E) (stop : ℕ → Option E) (backoff : String) where
  -- The delays after the attempts from one on.
  abbrev pub delays_from : ℕ → ℕ → List ℕ
  delays_from attempt zero = []
  delays_from attempt (suc n) = retry_delay attempt backoff ∷ delays_from (suc attempt) n

  now : (attempt : ℕ) → write (attempt + 0) ≡ none → write attempt ≡ none
  now attempt = subst (λ x. write x ≡ none) (add-zero attempt)

  shift : (attempt n : ℕ) → suc attempt + n ≡ attempt + suc n
  shift attempt n = omega arith

  more_turns : (attempt max : ℕ) → attempt < max → ltb_ℤ (pos attempt) (pos max) ≡ true
  more_turns attempt max h = ground arith

  -- A failed attempt that is not the last one.
  attempt_from-again :
      (max attempt left : ℕ) (last : Option E) (e : E)
      → stop attempt ≡ none
      → write attempt ≡ some e
      → attempt < max
      → attempt_from write stop backoff (pos max) attempt last (suc left)
        ≡ wrote (
            waited
              (retry_delay attempt backoff)
              (attempt_from write stop backoff (pos max) (suc attempt) (some e) left))
  unfolding attempt_from
  attempt_from-again max attempt left last e go failed h =
      rw (failed, attempt_from)
        (rw (more_turns attempt max h, attempt_from) (rw (go, attempt_from)))

  attempt_from-success :
      (max attempt left k : ℕ) (last : Option E)
      → ((n : ℕ) → stop n ≡ none)
      → ((n : ℕ) → n < k → write (attempt + n) ≢ none)
      → write (attempt + k) ≡ none
      → k ≤ left
      → attempt + left ≡ max
      → attempt_from write stop backoff (pos max) attempt last (suc left)
        ≡ record { writes = suc k; delays = delays_from attempt k; error = none }
  unfolding attempt_from
  attempt_from-success max attempt left zero last go before success h m =
      rw (now attempt success, attempt_from)
  attempt_from-success max attempt zero (suc k) last go before success h m = absurd (omega arith)
  attempt_from-success max attempt (suc left) (suc k) last go before success h m =
      elim (Option-cases (write attempt)) [
        | inl fine ↦ absurd (before 0 (omega arith) (rw (add-zero attempt) fine))
        | inr (e, failed) ↦
            let rest =
              attempt_from-success max (suc attempt) left k (some e) go
                (λ n l w.
                  before (suc n) (omega arith) (subst (λ x. write x ≡ none) (shift attempt n) w))
                (subst (λ x. write x ≡ none) (sym (shift attempt k)) success) (omega arith)
                (omega arith) in
            attempt_from-again max attempt (suc left) last e (go attempt) failed (omega arith)
            ∙ rw rest
      ]

  attempt_from-failure :
      (max attempt left : ℕ) (last : Option E) (final : E)
      → ((n : ℕ) → stop n ≡ none)
      → ((n : ℕ) → n < left → write (attempt + n) ≢ none)
      → write (attempt + left) ≡ some final
      → attempt + left ≡ max
      → attempt_from write stop backoff (pos max) attempt last (suc left) ≡ record {
        writes = suc left;
        delays = delays_from attempt left;
        error = some (exhausted (pos (suc max)) (some final));
      }
  unfolding attempt_from
  attempt_from-failure max attempt zero last final go before failure m =
      let failed = subst (λ x. write x ≡ some final) (add-zero attempt) failure in
      rw (failed, attempt_from) (rw (last_turn attempt max (omega arith), attempt_from) refl)
    where
      last_turn : (attempt max : ℕ) → attempt ≡ max → ltb_ℤ (pos attempt) (pos max) ≡ false
      last_turn attempt max h = ground arith
  attempt_from-failure max attempt (suc left) last final go before failure m =
      elim (Option-cases (write attempt)) [
        | inl fine ↦ absurd (before 0 (omega arith) (rw (add-zero attempt) fine))
        | inr (e, failed) ↦
            let rest =
              attempt_from-failure max (suc attempt) left (some e) final go
                (λ n l w.
                  before (suc n) (omega arith) (subst (λ x. write x ≡ none) (shift attempt n) w))
                (subst (λ x. write x ≡ some final) (sym (shift attempt left)) failure)
                (omega arith) in
            attempt_from-again max attempt (suc left) last e (go attempt) failed (omega arith)
            ∙ rw rest
      ]

  -- The last of a number of calls succeeded, the first such call from an attempt on.
  abbrev pub LastSucceeds : ℕ → ℕ → Type ℓ
  LastSucceeds attempt writes =
      (k : ℕ) × (writes ≡ suc k)
      × (write (attempt + k) ≡ none)
      × ((n : ℕ) → n < k → write (attempt + n) ≢ none)

  abbrev Honest : ℕ → ℕ → Outcome E → Type ℓ
  Honest attempt left o = (o.writes ≤ left) × (o.error ≡ none → LastSucceeds attempt o.writes)

  -- A failed call before calls from the next attempt on.
  wrote-Honest :
      (attempt left : ℕ) (e : E) (o : Outcome E)
      → write attempt ≡ some e
      → Honest (suc attempt) left o
      → Honest attempt (suc left) (wrote o)
  wrote-Honest attempt left e o failed (bound, honest) = (
    omega arith,
    λ nil.
        let (k, w, success, before) = honest nil in
        (suc k, rw w refl, subst (λ x. write x ≡ none) (shift attempt k) success, first k before),
  )
    where
      first :
          (k : ℕ)
          → ((n : ℕ) → n < k → write (suc attempt + n) ≢ none)
          → (n : ℕ) → n < suc k
          → write (attempt + n) ≢ none
      first k before zero l w = let fine = subst (λ x. write x ≡ none) (add-zero attempt) w in cc
      first k before (suc n) l w =
          before n (omega arith) (subst (λ x. write x ≡ none) (sym (shift attempt n)) w)

  attempt_from-Honest :
      (max : ℤ) (attempt left : ℕ) (last : Option E)
      → Honest attempt left (attempt_from write stop backoff max attempt last left)
  unfolding attempt_from
  attempt_from-Honest max attempt zero last = (omega arith, λ nil. cc)
  attempt_from-Honest max attempt (suc left) last =
      option_elim (Honest attempt (suc left)) (write attempt) _ _
        (λ fine. (
          omega arith,
          λ nil. (
            0,
            refl,
            subst (λ x. write x ≡ none) (sym (add-zero attempt)) fine,
            λ n l. absurd (omega arith),
          ),
        ))
        (λ e failed.
          let o = attempt_from write stop backoff max (suc attempt) (some e) left in
          let rest = attempt_from-Honest max (suc attempt) left (some e) in
          if_elim (Honest attempt (suc left)) (ltb_ℤ (pos attempt) max) _ _
            (λ more.
              option_elim (Honest attempt (suc left)) (stop attempt) _ _
                (λ going.
                  wrote-Honest attempt left e (waited (retry_delay attempt backoff) o) failed rest)
                (λ c stopped. (omega arith, λ nil. cc)))
            (λ over. wrote-Honest attempt left e o failed rest))

module _ {ℓ} {E : Type ℓ} (write : ℕ → Option E) (stop : ℕ → Option E)
    (delivery : Option DeliverySpec) (go : (n : ℕ) → stop n ≡ none) where
  -- Where the context is not done: if attempt k is the first that succeeds, and k is not above the
  -- number of retries, the sink is called k + 1 times and the result is nil.
  pub write_with_retry-success :
      (k max : ℕ)
      → max_retries_of (retry_of delivery) ≡ pos max
      → k ≤ max
      → ((n : ℕ) → n < k → write n ≢ none)
      → write k ≡ none
      → write_with_retry write stop delivery ≡ record {
        writes = suc k;
        delays = delays_from write stop (backoff_of (retry_of delivery)) 0 k;
        error = none;
      }
  unfolding write_with_retry
  write_with_retry-success k max e h before success =
      rw (e, write_with_retry)
        (attempt_from-success write stop _ max 0 max k none go
          (λ n l w. before n l (subst (λ x. write x ≡ none) (zero-add n) w))
          (subst (λ x. write x ≡ none) (sym (zero-add k)) success) h (zero-add max))

  -- Where the context is not done and every attempt fails, the sink is called once more than the
  -- number of retries, and the error tells that number and the last failure.
  pub write_with_retry-failure :
      (max : ℕ) (last : E)
      → max_retries_of (retry_of delivery) ≡ pos max
      → ((n : ℕ) → n < max → write n ≢ none)
      → write max ≡ some last
      → write_with_retry write stop delivery ≡ record {
        writes = suc max;
        delays = delays_from write stop (backoff_of (retry_of delivery)) 0 max;
        error = some (exhausted (pos (suc max)) (some last));
      }
  unfolding write_with_retry
  write_with_retry-failure max last e before failure =
      rw (e, write_with_retry)
        (attempt_from-failure write stop _ max 0 max none last go
          (λ n l w. before n l (subst (λ x. write x ≡ none) (zero-add n) w))
          (subst (λ x. write x ≡ some last) (sym (zero-add max)) failure) (zero-add max))

-- Whatever the sink and the context do: the sink is called at most once more than the number of
-- retries, and not at all where that number is negative; and the result is nil only if the last
-- call succeeded and every call before it failed.
pub write_with_retry_nil {ℓ} :
    {E : Type ℓ} (write stop : ℕ → Option E) (delivery : Option DeliverySpec)
    → let o = write_with_retry write stop delivery in
      (o.writes ≤ turns (max_retries_of (retry_of delivery)))
      × (o.error ≡ none
          → (k : ℕ) × (o.writes ≡ suc k) × (write k ≡ none) × ((n : ℕ) → n < k → write n ≢ none))
unfolding write_with_retry
write_with_retry_nil write stop delivery =
    let max = max_retries_of (retry_of delivery) in
    let (bound, honest) =
      attempt_from-Honest write stop (backoff_of (retry_of delivery)) max 0 (turns max) none in
    (
      bound,
      λ nil.
          let (k, w, success, before) = honest nil in
          (
            k,
            w,
            subst (λ x. write x ≡ none) (zero-add k) success,
            λ n l e. before n l (subst (λ x. write x ≡ none) (sym (zero-add n)) e),
          ),
    )

-- For n below 36, the exponential delay after attempt n + 1 is twice that after attempt n, and it
-- fits an int64.
pub retry_delay-doubles :
    (n : ℕ)
    → n < 36
    → (retry_delay (suc n) "exponential" ≡ 2 * retry_delay n "exponential")
      × (retry_delay (suc n) "exponential" < 2 ^ 63)
unfolding retry_delay string_dec
retry_delay-doubles n h =
    let bound : 2 ^ n ≤ 2 ^ 35 = pow-le-pow_right (omega arith) {j = 35} (omega arith) in
    rw pow-suc (omega arith)
