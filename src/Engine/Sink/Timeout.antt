-- ===== src/Engine/Sink/Timeout.antt =====
-- The timer of the loop of runSink (internal/engine/pipeline.go).
use mathlib.Core.List.{append-nil, append_assoc}
use eventr.Common.{
  false, List, [], ◌∷◌, ◌++◌, ℕ, suc, ◌+◌, ◌<◌, length, leb, ◌≡◌, refl, sym, ap, ◌∙◌, arith,
  length-append, if_elim,
}
use eventr.Common.Int.{pos}
use eventr.Engine.Sink.{
  Event, receive, fire, tick, done, Timer, Loop, flush, on_event, run_loop, spent, running,
}
use eventr.Engine.Sink.Batches.{taken, is_done}

module _ {ℓ} {M : Type ℓ} where
  abbrev held : List M → Timer → Loop M
  held b t = record { batch = b; timer = t; closed = false }

  run_loop-step :
      (n : ℕ) (e : Event M) (events : List (Event M)) (l l₁ : Loop M)
      → on_event (pos n) e l ≡ (l₁, [])
      → run_loop (pos n) (e ∷ events) l ≡ run_loop (pos n) events l₁
  unfolding run_loop
  run_loop-step n e events l l₁ h =
      ap (λ r. let (l₂, more) = run_loop (pos n) events r.0 in (l₂, r.1 ++ more)) h

  receive_short :
      (n : ℕ) (m : M) (b : List M) (t : Timer)
      → length b + 1 < suc n
      → on_event (pos (suc n)) (receive m) (held b t) ≡ (held (b ++ m ∷ []) t, [])
  unfolding on_event
  receive_short n m b t h =
      let k = length-append b (m ∷ []) in
      if_elim (λ r. r ≡ (held (b ++ m ∷ []) t, [])) (leb (suc n) (length (b ++ m ∷ []))) _ _
        (λ full. absurd (ground arith)) (λ f. refl)

  -- With the timer spent, only a full batch is written.
  waits :
      (n : ℕ) (events : List (Event M)) (b : List M)
      → length b + length (taken false events) < suc n
      → is_done false events ≡ false
      → run_loop (pos (suc n)) events (held b spent) ≡ (held (b ++ taken false events) spent, [])
  unfolding run_loop on_event taken
  waits n [] b h d = ap (λ x. (held x spent, [])) (sym (append-nil b))
  waits n (receive m ∷ events) b h d =
      let k = length-append b (m ∷ []) in
      run_loop-step (suc n) (receive m) events (held b spent) _
        (receive_short n m b spent (omega arith))
      ∙ waits n events (b ++ m ∷ []) (omega arith) d
      ∙ ap (λ x. (held x spent, [])) (append_assoc b (m ∷ []) (taken false events))
  waits n (fire ∷ events) b h d = waits n events b h d
  waits n (tick ∷ events) b h d = waits n events b h d
  waits n (done ∷ events) b h d = cc

  -- After the batch timer fires while no message is held: as long as fewer messages are received
  -- than a batch has and the context is not done, the loop of runSink writes nothing whatever
  -- comes; the messages stay in the batch, and the timer does not run.
  pub idle_tick_waits :
      (n : ℕ) (events : List (Event M))
      → length (taken false events) < suc n
      → is_done false events ≡ false
      → run_loop
          (pos (suc n))
          (fire ∷ tick ∷ events)
          (record { batch = []; timer = running; closed = false })
        ≡ (record { batch = taken false events; timer = spent; closed = false }, [])
  unfolding run_loop on_event flush
  idle_tick_waits n events h d = waits n events [] (omega arith) d
