-- ===== src/Engine/Acks/Once.antt =====
-- The parent of a fan-out (internal/engine/pipeline.go, internal/engine/dispatch.go) is acknowledged
-- once, whatever the order in which the children's closures run.
use mathlib.Core.List.{Memᴰ}
use mathlib.Core.List.Memᴰ
use eventr.Common.{
  List, [], ◌∷◌, map, ℕ, ◌^◌, ◌<◌, ◌≡◌, refl, ◌⊎◌, ◌↔◌, inl, inr, Option, none, arith, length, All,
  subst, Bool-cases,
}
use eventr.Engine.Acks.{Place, done, Call, Shared, started, fresh, run}
use eventr.Engine.Acks.Counts.{tally, is_open, is_last, is_won, is_noisy, is_blank}
use eventr.Engine.Acks.Invariant.{Inv, InvOf, run-Inv}

one_acked {ℓ} :
    {A : Type ℓ} (xs : List A) {a : A} → length xs ≡ 1 → All (λ x. x ≡ a) xs → xs ≡ a ∷ []
one_acked [] h all = absurd (omega arith)
one_acked (x ∷ []) h (e, _) = rw e
one_acked (x ∷ y ∷ xs) h all = absurd (omega arith)

module _ {ℓ} {E : Type ℓ} where
  -- Calls that have run to their end.
  abbrev pub AllDone : List (Call E) → Type 0
  AllDone cs = All (λ c. c.place ≡ done) cs

  tally-started :
      (errors : List (Option E))
      → (tally is_open (map started errors) ≡ length errors)
        × (tally is_last (map started errors) ≡ 0)
        × (tally is_won (map started errors) ≡ 0)
        × (tally is_noisy (map started errors) ≡ 0)
        × (tally is_blank (map started errors) ≡ 0)
  unfolding tally
  tally-started [] = (refl, refl, refl, refl, refl)
  tally-started (e ∷ errors) = omega (arith, tally-started errors)

  errors-started : (errors : List (Option E)) → map (λ c. c.error) (map started errors) ≡ errors
  errors-started [] = refl
  errors-started (e ∷ errors) = rw (errors-started errors)

  Inv-started :
      (n : ℕ) (errors : List (Option E)) (h : 0 < n) (few : length errors < 2 ^ 32)
      → n < 2 ^ 32
      → InvOf n errors h few (map started errors) (fresh n)
  Inv-started n errors h few small =
      let t = tally-started errors in
      record {
        counted = λ _. omega (arith, t.0);
        passed = λ l. absurd (omega (arith, t.0));
        early = λ _. omega (arith, t.1);
        ending = λ e. absurd (omega (arith, t.0));
        unset = λ _. (refl, t.2, t.3);
        unset_or_set = λ e. absurd (cc);
        some_blank = t.4;
        reported = λ e. tt;
        origin = inl refl;
      }

  tally-AllDone :
      (cs : List (Call E))
      → AllDone cs
      → (tally is_open cs ≡ 0) × (tally is_last cs ≡ 0) × (tally is_won cs ≡ 0)
  unfolding tally
  tally-AllDone [] h = (refl, refl, refl)
  tally-AllDone (c ∷ cs) (h, hs) = ground (arith, tally-AllDone cs hs)

  -- Where no call is open and none past the swap has an error, no call has one.
  quiet :
      (cs : List (Call E))
      → tally is_open cs ≡ 0
      → tally is_noisy cs ≡ 0
      → All (λ e. e ≡ none) (map (λ c. c.error) cs)
  unfolding tally
  quiet [] o n = tt
  quiet (c ∷ cs) o n =
      (quiet_one c.place c.error (omega arith) (omega arith), quiet cs (omega arith) (omega arith))
    where
      quiet_one :
          (p : Place) (e : Option E)
          → is_open (record { place = p; error = e }) ≡ 0
          → is_noisy (record { place = p; error = e }) ≡ 0
          → e ≡ none
      quiet_one p e o n = ground arith

  none_of_mem :
      (errors : List (Option E)) {e : Option E}
      → All (λ x. x ≡ none) errors
      → Memᴰ e errors
      → e ≡ none
  none_of_mem [] h m = absurd (Memᴰ.not-nil m)
  none_of_mem (x ∷ errors) (h, hs) m = elim (Memᴰ.cases_cons m) [
    | inl e ↦ rw e h
    | inr later ↦ none_of_mem errors hs later
  ]

  -- The state that a schedule leads to, from the moment in which n children are sent, with the
  -- error of each call that is made of their closures.
  abbrev pub after : ℕ → List (Option E) → List ℕ → List (Call E) × Shared E
  after n errors schedule = run schedule (map started errors) (fresh n)

  after-Inv :
      (n : ℕ) (errors : List (Option E)) (schedule : List ℕ) (h : 0 < n)
      (few : length errors < 2 ^ 32)
      → n < 2 ^ 32
      → let (cs, s) = after n errors schedule in
        (map (λ c. c.error) cs ≡ errors) × InvOf n errors h few cs s
  after-Inv n errors schedule h few small =
      run-Inv n errors h few schedule _ _ (errors-started errors) (Inv-started n errors h few small)

  module _ (n : ℕ) (errors : List (Option E)) (h : 0 < n) (few : length errors < 2 ^ 32)
      {o l w y b : ℕ} (s : Shared E) (inv : Inv n errors h few o l w y b s) where
    -- At the end the one call carried firstErr, as it is.
    Inv-ended : n ≡ length errors → o ≡ 0 → l ≡ 0 → s.acked ≡ s.first_err ∷ []
    Inv-ended once no_open no_last =
        one_acked s.acked (omega (arith, inv.ending (omega arith))) (inv.reported (omega arith))

    Inv-quiet : w ≡ 0 → s.first_err ≡ none → y ≡ 0
    Inv-quiet no_won e = elim (Bool-cases s.err_stored) [
      | inl on ↦ elim (inv.unset_or_set on) [
        | inl (one, _) ↦ absurd (omega arith)
        | inr (_, set) ↦ absurd (set e)
      ]
      | inr off ↦ (inv.unset off).2
    ]

  -- Under every schedule in which the Ack of each child of a message is called once and all the
  -- calls run to their end (one child or more, and fewer than 2^32), the parent is acknowledged
  -- exactly once: with nil exactly if each child was acknowledged with nil, and else with the error
  -- of one of them, whether or not the edge of that child is required.
  pub ack_once :
      (errors : List (Option E)) (schedule : List ℕ)
      → 0 < length errors
      → length errors < 2 ^ 32
      → AllDone (after (length errors) errors schedule).0
      → (a : Option E) × ((after (length errors) errors schedule).1.acked ≡ a ∷ [])
        × ((a ≡ none) ↔ All (λ e. e ≡ none) errors)
        × ((a ≡ none) ⊎ Memᴰ a errors)
  ack_once errors schedule h few all_done =
      let n = length errors in
      let (cs, s) = after n errors schedule in
      let (same, inv) = after-Inv n errors schedule h few few in
      let (no_open, no_last, no_won) = tally-AllDone cs all_done in
      (
        s.first_err,
        Inv-ended n errors h few s inv refl no_open no_last,
        (
          λ e.
              subst (All (λ x. x ≡ none)) same
                (quiet cs no_open (Inv-quiet n errors h few s inv no_won e)),
          λ all. elim inv.origin [ inl e ↦ e | inr m ↦ none_of_mem errors all m ],
        ),
        inv.origin,
      )
