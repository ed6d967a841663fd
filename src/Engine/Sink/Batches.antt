-- ===== src/Engine/Sink/Batches.antt =====
-- What the loop of runSink (internal/engine/pipeline.go) makes of the messages that it receives.
use mathlib.Core.List.{append-nil, append_assoc}
use eventr.Common.{
  subst, Bool, true, false, String, List, [], ◌∷◌, ◌++◌, ℕ, suc, ◌≤◌, ◌<◌, length, leb, All,
  All-append, ◌≡◌, refl, sym, ap, ◌∙◌, arith, length-append, ◌⊎◌, if_elim,
}
use eventr.Common.Int.{pos_part, ℤ, pos}
use eventr.Topology.Ir.{StageIr}
use eventr.Engine.Sink.{
  Settings, read_settings, sink_settings, Event, receive, fire, tick, done, Timer, Loop, start_loop,
  flush, on_event, run_loop, may_fire, may_tick, reset_timer, stop_timer, fired, spent,
}
use eventr.Engine.Sink.Positive.{read_settings-IsPositive, suc_of_positive}

abbrev pub concat {ℓ} : {M : Type ℓ} → List (List M) → List M
concat [] = []
concat (b ∷ bs) = b ++ concat bs

-- The messages that are received before the context is done.
unfoldable pub taken {ℓ} : {M : Type ℓ} → Bool → List (Event M) → List M
taken true events = []
taken false [] = []
taken false (receive m ∷ events) = m ∷ taken false events
taken false (fire ∷ events) = taken false events
taken false (tick ∷ events) = taken false events
taken false (done ∷ events) = taken true events

abbrev pub is_done {ℓ} : {M : Type ℓ} → Bool → List (Event M) → Bool
is_done true events = true
is_done false [] = false
is_done false (receive m ∷ events) = is_done false events
is_done false (fire ∷ events) = is_done false events
is_done false (tick ∷ events) = is_done false events
is_done false (done ∷ events) = true

-- A batch that goes to the sink.
abbrev pub IsBatch {ℓ} : {M : Type ℓ} → ℕ → List M → Type 0
IsBatch size b = (0 < length b) × (length b ≤ size)

done_none {ℓ} : {M : Type ℓ} (c : Bool) (b : List M) → b ≡ b ++ taken c []
unfolding taken
done_none true b = sym (append-nil b)
done_none false b = sym (append-nil b)

is_done_nil {ℓ} : (M : Type ℓ) (c : Bool) → is_done {M = M} c [] ≡ c
is_done_nil M true = refl
is_done_nil M false = refl

concat_append {ℓ} :
    {M : Type ℓ} (xs ys : List (List M)) (b : List M)
    → concat (xs ++ ys) ++ b ≡ concat xs ++ (concat ys ++ b)
concat_append [] ys b = refl
concat_append (x ∷ xs) ys b =
    append_assoc x (concat (xs ++ ys)) b
    ∙ ap (λ r. x ++ r) (concat_append xs ys b)
    ∙ sym (append_assoc x (concat xs) (concat ys ++ b))

module _ {ℓ} {M : Type ℓ} where
  -- Fewer messages than a batch has are held, and none once the loop is over.
  record IsLoop (size : ℕ) (l : Loop M) : Type 0 where
    short : length l.batch < size
    over : l.closed ≡ true → length l.batch ≡ 0

  flush-cases :
      (l : Loop M)
      → (l.batch ≡ []) × (flush l ≡ (l, []))
        ⊎ (0 < length l.batch)
          × (flush l ≡ (record l { batch = []; timer = reset_timer l.timer }, l.batch ∷ []))
  unfolding flush
  flush-cases l = ground arith

  -- What a flush makes of a loop that goes on.
  record IsFlushed (size : ℕ) (b : List M) (c : Bool) (r : Loop M × List (List M)) : Type ℓ where
    none_left : length r.0.batch ≡ 0
    good : All (IsBatch size) r.1
    kept : concat r.1 ++ r.0.batch ≡ b
    closed : r.0.closed ≡ c

  flush-IsFlushed :
      (size : ℕ) (b : List M) (t : Timer) (c : Bool)
      → length b ≤ size
      → IsFlushed size b c (flush (record { batch = b; timer = t; closed = c }))
  unfolding flush
  flush-IsFlushed size [] t c h = record { none_left = refl; good = tt; kept = refl; closed = refl }
  flush-IsFlushed size (m ∷ b) t c h = record {
    none_left = refl;
    good = ((omega arith, h), tt);
    kept = append-nil _ ∙ append-nil _;
    closed = refl;
  }

  -- One event, before any others.
  record IsStep (size : ℕ) (l : Loop M) (e : Event M) (r : Loop M × List (List M)) : Type ℓ where
    loop : IsLoop size r.0
    good : All (IsBatch size) r.1
    kept :
        (events : List (Event M))
        → concat r.1 ++ (r.0.batch ++ taken r.0.closed events)
          ≡ l.batch ++ taken l.closed (e ∷ events)
    ends : (events : List (Event M)) → is_done r.0.closed events ≡ is_done l.closed (e ∷ events)

  abbrev loop_of : List M → Timer → Bool → Loop M
  loop_of b t c = record { batch = b; timer = t; closed = c }

  -- A loop that changed its timer only.
  IsStep-same :
      (size : ℕ) (e : Event M) (b : List M) (t t' : Timer) (c : Bool)
      → IsLoop size (loop_of b t c)
      → ((events : List (Event M)) → taken c (e ∷ events) ≡ taken c events)
      → ((events : List (Event M)) → is_done c (e ∷ events) ≡ is_done c events)
      → IsStep size (loop_of b t c) e (loop_of b t' c, [])
  IsStep-same size e b t t' c i ht hd = record {
    loop = record { short = i.short; over = i.over };
    good = tt;
    kept = λ events. ap (λ x. b ++ x) (sym (ht events));
    ends = λ events. sym (hd events);
  }

  -- A loop that flushed a batch b, with what it received last.
  IsStep-flush :
      (n : ℕ) (l : Loop M) (e : Event M) (b : List M) (c : Bool) (r : Loop M × List (List M))
      → IsFlushed (suc n) b c r
      → ((events : List (Event M)) → b ++ taken c events ≡ l.batch ++ taken l.closed (e ∷ events))
      → ((events : List (Event M)) → is_done c events ≡ is_done l.closed (e ∷ events))
      → IsStep (suc n) l e r
  IsStep-flush n l e b c r f hk hd = record {
    loop = record { short = rw f.none_left (omega arith); over = λ q. f.none_left };
    good = f.good;
    kept = λ events.
        sym (append_assoc (concat r.1) r.0.batch (taken r.0.closed events))
        ∙ ap (λ x. x ++ taken r.0.closed events) f.kept
        ∙ ap (λ x. b ++ taken x events) f.closed
        ∙ hk events;
    ends = λ events. ap (λ x. is_done x events) f.closed ∙ hd events;
  }

  IsFlushed-close :
      (size : ℕ) (b : List M) (c : Bool) (r : Loop M × List (List M))
      → IsFlushed size b c r
      → IsFlushed size b true (record r.0 { closed = true }, r.1)
  IsFlushed-close size b c r f = record {
    none_left = f.none_left;
    good = f.good;
    kept = f.kept;
    closed = refl;
  }

  on_event-at :
      (n : ℕ) (e : Event M) (b : List M) (t : Timer) (c : Bool)
      → IsLoop (suc n) (loop_of b t c)
      → IsStep (suc n) (loop_of b t c) e (on_event (pos (suc n)) e (loop_of b t c))
  unfolding on_event taken
  on_event-at n (receive m) b t true i =
      IsStep-same (suc n) _ b t t true i (λ events. refl) (λ events. refl)
  on_event-at n fire b t true i =
      if_elim (IsStep (suc n) (loop_of b t true) fire) (may_fire t) _ _
        (λ h. IsStep-same (suc n) _ b t fired true i (λ events. refl) (λ events. refl))
        (λ h. IsStep-same (suc n) _ b t t true i (λ events. refl) (λ events. refl))
  on_event-at n tick b t true i =
      IsStep-same (suc n) _ b t t true i (λ events. refl) (λ events. refl)
  on_event-at n done b t true i =
      IsStep-same (suc n) _ b t t true i (λ events. refl) (λ events. refl)
  on_event-at n (receive m) b t false i =
      if_elim (IsStep (suc n) (loop_of b t false) (receive m)) (leb (suc n) (length (b ++ m ∷ [])))
        _ _
        (λ h.
          IsStep-flush n _ _ (b ++ m ∷ []) false _
            (flush-IsFlushed (suc n) (b ++ m ∷ []) t false
              (let l = length-append b (m ∷ []) in let s = i.short in omega arith))
            (λ events. append_assoc b (m ∷ []) _) (λ events. refl))
        (λ h. record {
          loop = record { short = ground arith; over = λ q. cc };
          good = tt;
          kept = λ events. append_assoc b (m ∷ []) _;
          ends = λ events. refl;
        })
  on_event-at n fire b t false i =
      if_elim (IsStep (suc n) (loop_of b t false) fire) (may_fire t) _ _
        (λ h. IsStep-same (suc n) _ b t fired false i (λ events. refl) (λ events. refl))
        (λ h. IsStep-same (suc n) _ b t t false i (λ events. refl) (λ events. refl))
  on_event-at n tick b t false i =
      if_elim (IsStep (suc n) (loop_of b t false) tick) (may_tick t) _ _
        (λ h.
          IsStep-flush n _ _ b false _
            (flush-IsFlushed (suc n) b spent false (omega (arith, i.short))) (λ events. refl)
            (λ events. refl))
        (λ h. IsStep-same (suc n) _ b t t false i (λ events. refl) (λ events. refl))
  on_event-at n done b t false i =
      IsStep-flush n _ _ b true _
        (IsFlushed-close _ _ _ _
          (flush-IsFlushed (suc n) b (stop_timer t) false (omega (arith, i.short))))
        (λ events. refl) (λ events. refl)

  run_loop-kept :
      (n : ℕ) (events : List (Event M)) (l : Loop M)
      → IsLoop (suc n) l
      → let r = run_loop (pos (suc n)) events l in
        (concat r.1 ++ r.0.batch ≡ l.batch ++ taken l.closed events)
        × All (IsBatch (suc n)) r.1
        × (is_done l.closed events ≡ true → length r.0.batch ≡ 0)
  unfolding run_loop
  run_loop-kept n [] l i =
      (done_none l.closed l.batch, tt, λ h. i.over (sym (is_done_nil M l.closed) ∙ h))
  run_loop-kept n (e ∷ events) l i =
      let s = on_event-at n e l.batch l.timer l.closed i in
      let (k, g, d) = run_loop-kept n events _ s.loop in
      (
        concat_append (on_event (pos (suc n)) e l).1 _ _
            ∙ ap (λ x. concat (on_event (pos (suc n)) e l).1 ++ x) k
            ∙ s.kept events,
        All-append _ _ _ s.good g,
        λ h. d (s.ends events ∙ h),
      )

-- Whatever events the loop of runSink meets: the batches that it writes, in order and with the
-- batch that it holds, are the messages received before the end of the context, in order; each
-- batch has at least one message and at most as many as the batch size; and after the end of the
-- context none is held.
pub sink_batches {ℓ} :
    {M : Type ℓ} (parse_duration : String → ℤ) (id : String) (stages : List StageIr)
    (events : List (Event M))
    → let s = sink_settings parse_duration id stages in
      let r = run_loop s.batch_size events (start_loop s) in
      (concat r.1 ++ r.0.batch ≡ taken false events)
      × All (IsBatch (pos_part s.batch_size)) r.1
      × (is_done false events ≡ true → length r.0.batch ≡ 0)
unfolding sink_settings
sink_batches parse_duration id stages events =
    let initial : Settings = record {
      batch_size = pos 1;
      batch_timeout = pos 0;
      max_in_flight = pos 1;
    } in
    let s = read_settings parse_duration id stages initial in
    let positive = read_settings-IsPositive parse_duration id stages initial (refl, refl) in
    let (n, e) = suc_of_positive s.batch_size positive.0 in
    subst
      (λ size.
        let r = run_loop size events (start_loop s) in
        (concat r.1 ++ r.0.batch ≡ taken false events)
        × All (IsBatch (pos_part size)) r.1
        × (is_done false events ≡ true → length r.0.batch ≡ 0))
      (sym e)
      (run_loop-kept n events (start_loop s) (record { short = omega arith; over = λ h. cc }))
