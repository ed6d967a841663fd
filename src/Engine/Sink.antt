-- ===== src/Engine/Sink.antt =====
-- The batching of runSink (internal/engine/pipeline.go): its settings, and its select loop as a step
-- per event. `parse_duration` is the first result of time.ParseDuration, in nanoseconds.
pub mod Positive
pub mod Batches
pub mod Timeout
use eventr.Common.{
  Bool, true, false, String, List, [], ◌∷◌, ◌++◌, ℕ, suc, Option, none, some, if◌then◌else◌, length,
  leb, is_empty,
}
use eventr.Common.Int.{ℤ, pos, negsuc, ltb_ℤ}
use eventr.Common.Text.{◌==◌}
use eventr.Config.Types.{BatchConfig}
use eventr.Topology.Ir.{StageIr}

pub record Settings : Type 0 where
  pub batch_size : ℤ
  pub batch_timeout : ℤ
  pub max_in_flight : ℤ

module _ (parse_duration : String → ℤ) where
  unfoldable pub set_batch : Option BatchConfig → Settings → Settings
  set_batch none s = s
  set_batch (some b) s =
      let sized = if ltb_ℤ (pos 0) b.size then record s { batch_size = b.size } else s in
      if b.timeout == "" then sized else record sized { batch_timeout = parse_duration b.timeout }

  unfoldable pub set_in_flight : StageIr → Settings → Settings
  set_in_flight st s =
      let own =
        if ltb_ℤ (pos 0) st.max_in_flight
        then record s { max_in_flight = st.max_in_flight }
        else s in
      if st.ordering == "ordered" then record own { max_in_flight = pos 1 } else own

  -- The loop over the stages, of which those with the id of the sink count.
  unfoldable pub read_settings : String → List StageIr → Settings → Settings
  unfolding set_batch set_in_flight
  read_settings id [] s = s
  read_settings id (st ∷ stages) s =
      read_settings id stages (if st.id == id then set_in_flight st (set_batch st.batch s) else s)

  unfoldable pub sink_settings : String → List StageIr → Settings
  unfolding read_settings
  sink_settings id stages =
      read_settings id stages
        (record { batch_size = pos 1; batch_timeout = pos 0; max_in_flight = pos 1 })

-- The timer: none where the stage has no timeout; `running` until it fires, `fired` while its tick
-- lies in timerC, and `spent` once the tick was taken, until a Reset.
pub data Timer : Type 0 where
  no_timer running fired spent : Timer

-- What the loop waits for. `fire` is the timer's own doing.
pub data Event {ℓ} (M : Type ℓ) : Type ℓ where
  receive : M → Event M
  fire tick done : Event M

-- The local variables of the loop. `closed` after the loop has closed writeCh and returned.
pub record Loop {ℓ} (M : Type ℓ) : Type ℓ where
  pub batch : List M
  pub timer : Timer
  pub closed : Bool

abbrev pub start_timer : ℤ → Timer
start_timer timeout = if ltb_ℤ (pos 0) timeout then running else no_timer

-- timer.Reset, after Stop and the emptying of timerC; nothing for a nil timer.
abbrev pub reset_timer : Timer → Timer
reset_timer no_timer = no_timer
reset_timer running = running
reset_timer fired = running
reset_timer spent = running

-- timer.Stop
abbrev pub stop_timer : Timer → Timer
stop_timer no_timer = no_timer
stop_timer running = spent
stop_timer fired = spent
stop_timer spent = spent

-- timer.C receives where a tick lies in it, and a timer fires while it runs.
abbrev pub may_tick : Timer → Bool
may_tick no_timer = false
may_tick running = false
may_tick fired = true
may_tick spent = false

abbrev pub may_fire : Timer → Bool
may_fire no_timer = false
may_fire running = true
may_fire fired = false
may_fire spent = false

module _ {ℓ} {M : Type ℓ} where
  abbrev pub start_loop : Settings → Loop M
  start_loop s = record { batch = []; timer = start_timer s.batch_timeout; closed = false }

  -- The closure `flush`: the loop after it, and the batches that it enqueues.
  unfoldable pub flush : Loop M → Loop M × List (List M)
  flush l =
      if is_empty l.batch
      then (l, [])
      else (record l { batch = []; timer = reset_timer l.timer }, l.batch ∷ [])

  -- A batch that is full: len(batch) >= batchSize
  abbrev pub is_full : ℤ → List M → Bool
  is_full (pos n) batch = leb n (length batch)
  is_full (negsuc n) batch = true

  -- One turn of the loop. An event that cannot occur leaves all as it is.
  unfoldable pub on_event : ℤ → Event M → Loop M → Loop M × List (List M)
  unfolding flush
  on_event size (receive m) l =
      if l.closed
      then (l, [])
      else (let l₁ = record l { batch = l.batch ++ m ∷ [] } in
          if is_full size l₁.batch then flush l₁ else (l₁, []))
  on_event size fire l = if may_fire l.timer then (record l { timer = fired }, []) else (l, [])
  on_event size tick l =
      if l.closed
      then (l, [])
      else if may_tick l.timer
      then flush (record l { timer = spent })
      else (l, [])
  on_event size done l =
      if l.closed
      then (l, [])
      else (let (l₁, out) = flush (record l { timer = stop_timer l.timer }) in
          (record l₁ { closed = true }, out))

  unfoldable pub run_loop : ℤ → List (Event M) → Loop M → Loop M × List (List M)
  unfolding on_event
  run_loop size [] l = (l, [])
  run_loop size (e ∷ events) l =
      let (l₁, out) = on_event size e l in
      let (l₂, more) = run_loop size events l₁ in (l₂, out ++ more)
