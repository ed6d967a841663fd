-- ===== src/Engine/Acks/Invariant.antt =====
-- What holds of the shared variables in internal/engine/dispatch.go at every moment of a schedule.
use mathlib.Core.List.{Memᴰ, map-append}
use mathlib.Core.List.Memᴰ
use eventr.Common.{
  true, false, List, [], ◌∷◌, ◌++◌, map, ℕ, zero, suc, ◌+◌, ◌-◌, ◌^◌, ◌<◌, ◌≤◌, ◌≡◌, ◌≢◌, refl, ◌⊎◌,
  inl, inr, Option, none, some, arith, length, length-append, All, All-append, eqb, subst,
  Bool-cases,
}
use eventr.Engine.Acks.{
  Place, begin, won, counting, last, done, Call, Shared, advance, step_call, run, decrement,
}
use eventr.Engine.Acks.Counts.{
  tally, tally-split, is_open, is_last, is_won, is_noisy, is_blank, step_call-split,
}

-- What AddInt32 makes of the counter.
decrement-cases : (p : ℕ) → (p ≡ 0) × (decrement p ≡ 2 ^ 32 - 1) ⊎ (0 < p) × (decrement p + 1 ≡ p)
decrement-cases zero = inl (refl, refl)
decrement-cases (suc p) = inr (omega arith, omega arith)

-- `n` is the number of children, and `errors` has the error of each call.
module _ {ℓ} {E : Type ℓ} (n : ℕ) (errors : List (Option E)) (some_child : 0 < n)
    (few : length errors < 2 ^ 32) where
  -- The calls by number, apart from the list that they stand in. At most one winds the counter up
  -- to 0, and the calls after that go on below.
  pub record Inv (open_ last_ won_ noisy blank : ℕ) (s : Shared E) : Type ℓ where
    pub counted : length errors ≤ n + open_ → s.pending + length errors ≡ n + open_
    pub passed : n + open_ < length errors → s.pending + length errors ≡ n + open_ + 2 ^ 32
    pub early : length errors < n + open_ → last_ + length s.acked ≡ 0
    pub ending : n + open_ ≤ length errors → last_ + length s.acked ≡ 1
    pub unset : s.err_stored ≡ false → (s.first_err ≡ none) × (won_ ≡ 0) × (noisy ≡ 0)
    pub unset_or_set :
        s.err_stored ≡ true → (won_ ≡ 1) × (s.first_err ≡ none) ⊎ (won_ ≡ 0) × (s.first_err ≢ none)
    pub some_blank : blank ≡ 0
    pub reported : length errors ≤ n → All (λ a. a ≡ s.first_err) s.acked
    pub origin : (s.first_err ≡ none) ⊎ Memᴰ s.first_err errors

  abbrev pub InvOf : List (Call E) → Shared E → Type ℓ
  InvOf cs s =
      Inv (tally is_open cs) (tally is_last cs) (tally is_won cs) (tally is_noisy cs)
        (tally is_blank cs) s

  All-none : (P : Option E → Type ℓ) (xs : List (Option E)) → length xs ≡ 0 → All P xs
  All-none P [] h = tt
  All-none P (x ∷ xs) h = absurd (omega arith)

  -- The step of one call, with the numbers of the others.
  abbrev Kept : (o l w y b : ℕ) → Place → Option E → Shared E → Type ℓ
  Kept o l w y b p e s =
      let c : Call E = record { place = p; error = e } in
      Inv (o + is_open c) (l + is_last c) (w + is_won c) (y + is_noisy c) (b + is_blank c) s

  abbrev Counter : ℕ → Type 0
  Counter p = (p ≡ 0) × (decrement p ≡ 2 ^ 32 - 1) ⊎ (0 < p) × (decrement p + 1 ≡ p)

  counted_down :
      (o l w y b : ℕ) (e : Option E) (s : Shared E)
      → Kept o l w y b counting e s
      → Counter s.pending
      → length errors ≤ n + (o + 0)
      → decrement s.pending + length errors ≡ n + (o + 0)
  counted_down o l w y b e s inv (inl (zero_now, d)) h =
      absurd (omega (arith, inv.counted (omega arith)))
  counted_down o l w y b e s inv (inr (more, d)) h = omega (arith, inv.counted (omega arith))

  passed_down :
      (o l w y b : ℕ) (e : Option E) (s : Shared E)
      → Kept o l w y b counting e s
      → Counter s.pending
      → n + (o + 0) < length errors
      → decrement s.pending + length errors ≡ n + (o + 0) + 2 ^ 32
  passed_down o l w y b e s inv d h = ground arith

  advance-Kept :
      (o l w y b : ℕ) (p : Place) (e : Option E) (s : Shared E)
      → Memᴰ e errors
      → Kept o l w y b p e s
      → let (p', s') = advance p e s in Kept o l w y b p' e s'
  unfolding advance
  advance-Kept o l w y b begin none s m inv = ground arith
  advance-Kept o l w y b begin (some e) s m inv = elim (Bool-cases s.err_stored) [
    | inl on ↦ rw on (record {
      counted = ground arith;
      passed = ground arith;
      early = ground arith;
      ending = ground arith;
      unset = ground arith;
      unset_or_set = ground arith;
      some_blank = ground arith;
      reported = inv.reported;
      origin = inv.origin;
    })
    | inr off ↦ rw off (record {
      counted = ground arith;
      passed = ground arith;
      early = ground arith;
      ending = ground arith;
      unset = ground arith;
      unset_or_set = ground arith;
      some_blank = ground arith;
      reported = inv.reported;
      origin = inv.origin;
    })
  ]
  advance-Kept o l w y b won none s m inv = absurd (omega (arith, inv.some_blank))
  advance-Kept o l w y b won (some e) s m inv = record {
    counted = ground arith;
    passed = ground arith;
    early = ground arith;
    ending = ground arith;
    unset = ground arith;
    unset_or_set = ground arith;
    some_blank = ground arith;
    reported = λ e. All-none _ s.acked (ground arith);
    origin = inr m;
  }
  advance-Kept o l w y b counting e s m inv =
      let d = decrement-cases s.pending in
      elim (Bool-cases (eqb (decrement s.pending) 0)) [
        | inl zeroed ↦ rw zeroed (record {
          counted = counted_down o l w y b e s inv d;
          passed = passed_down o l w y b e s inv d;
          early = ground arith;
          ending = ground arith;
          unset = ground arith;
          unset_or_set = ground arith;
          some_blank = ground arith;
          reported = inv.reported;
          origin = inv.origin;
        })
        | inr more ↦ rw more (record {
          counted = counted_down o l w y b e s inv d;
          passed = passed_down o l w y b e s inv d;
          early = ground arith;
          ending = ground arith;
          unset = ground arith;
          unset_or_set = ground arith;
          some_blank = ground arith;
          reported = inv.reported;
          origin = inv.origin;
        })
      ]
  advance-Kept o l w y b last e s m inv = record {
    counted = ground arith;
    passed = ground arith;
    early = ground arith;
    ending = ground (arith, length-append s.acked (s.first_err ∷ []));
    unset = ground arith;
    unset_or_set = ground arith;
    some_blank = ground arith;
    reported = λ e. All-append _ s.acked _ (inv.reported e) (refl, tt);
    origin = inv.origin;
  }
  advance-Kept o l w y b done e s m inv = inv

  module _ (pre : List (Call E)) (c : Call E) (post : List (Call E)) (s : Shared E) where
    abbrev Around : Type ℓ
    Around =
        Kept (tally is_open pre + tally is_open post) (tally is_last pre + tally is_last post)
          (tally is_won pre + tally is_won post) (tally is_noisy pre + tally is_noisy post)
          (tally is_blank pre + tally is_blank post) c.place c.error s

    to_around : InvOf (pre ++ c ∷ post) s → Around
    to_around inv = simp tally-split at inv

    of_around : Around → InvOf (pre ++ c ∷ post) s
    of_around inv = simp tally-split inv

  mem-error :
      (pre : List (Call E)) (c : Call E) (post : List (Call E))
      → map (λ d. d.error) (pre ++ c ∷ post) ≡ errors
      → Memᴰ c.error errors
  mem-error pre c post same =
      subst (Memᴰ c.error) same (Memᴰ.map (λ d. d.error) (Memᴰ.append_right pre (Memᴰ.head refl)))

  step_call-Inv :
      (i : ℕ) (cs : List (Call E)) (s : Shared E)
      → map (λ c. c.error) cs ≡ errors
      → InvOf cs s
      → let (cs', s') = step_call i cs s in (map (λ c. c.error) cs' ≡ errors) × InvOf cs' s'
  step_call-Inv i cs s same inv = elim (step_call-split i cs s) [
    | inl e ↦ rw e (same, inv)
    | inr (pre, c, post, e, f) ↦
        let same' = rw e at same in
        let inv' = to_around pre c post s (subst (λ x. InvOf x s) e inv) in
        rw f (
          simp map-append (simp map-append at same'),
          of_around pre _ post _
              (advance-Kept _ _ _ _ _ c.place c.error s (mem-error pre c post same') inv'),
        )
  ]

  pub run-Inv :
      (schedule : List ℕ) (cs : List (Call E)) (s : Shared E)
      → map (λ c. c.error) cs ≡ errors
      → InvOf cs s
      → let (cs', s') = run schedule cs s in (map (λ c. c.error) cs' ≡ errors) × InvOf cs' s'
  unfolding run
  run-Inv [] cs s same inv = (same, inv)
  run-Inv (i ∷ schedule) cs s same inv =
      let (same', inv') = step_call-Inv i cs s same inv in run-Inv schedule _ _ same' inv'
