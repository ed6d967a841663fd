-- ===== src/Buffer/Edge.antt =====
-- EdgeInbound of internal/buffer/edge.go over the disk buffer. A select that may take the end of the
-- context or another case is told by a Turn which it takes; none stands for a call that still waits.
-- Each call runs without another one in between.
pub mod Accounts
pub mod Drains
use eventr.Common.{
  Bool, true, false, not, ◌&&◌, ◌||◌, String, List, [], ◌∷◌, ◌++◌, ℕ, suc, Option, none, some,
  if◌then◌else◌, ltb, leb, eqb, length, is_empty,
}
use eventr.Common.Text.{◌==◌}
use eventr.Message.{Message, new_message}
use eventr.Buffer.Disk.{Disk, Limits, append, read_next}

-- ctx.Done(), or what the select waits for beside it.
pub data Turn : Type 0 where
  stop go : Turn

pub record Edge {ℓ} (M : Type ℓ) : Type ℓ where
  pub type : String
  pub strategy : String
  pub capacity : ℕ
  pub mem : List M
  pub disk : Option (Disk M)
  pub closed : Bool

-- The errors of the context and of the disk buffer.
pub data EdgeError : Type 0 where
  cancelled disk_full : EdgeError

-- What a call returns, the edge after it, and the acknowledgements.
pub record Enqueued {ℓ} (M : Type ℓ) : Type ℓ where
  pub edge : Edge M
  pub dropped : Bool
  pub reason : String
  pub error : Option EdgeError
  pub acks : List (M × Option EdgeError)

-- What a turn of drainLoop does: it gives a message to e.out, ends with an acknowledgement or
-- without, or goes on (it waits, or found the context done and something left).
pub data Drained {ℓ} (M : Type ℓ) : Type ℓ where
  emitted : M → Drained M
  refused : M → Drained M
  ended : Drained M
  waiting : Drained M

module _ {ℓ} {M : Type ℓ} where
  -- len(e.mem) < cap(e.mem)
  abbrev pub has_room : Edge M → Bool
  has_room e = ltb (length e.mem) e.capacity

  abbrev pub push : M → Edge M → Edge M
  push m e = record e { mem = e.mem ++ m ∷ [] }

  abbrev pub kept : Edge M → Enqueued M
  kept e = record { edge = e; dropped = false; reason = ""; error = none; acks = [] }

  abbrev pub cancel : M → Edge M → Enqueued M
  cancel m e = record (kept e) { acks = (m, some cancelled) ∷ [] }

  abbrev pub drop_new : String → M → Edge M → Enqueued M
  drop_new reason m e = record (kept e) { dropped = true; reason = reason; acks = (m, none) ∷ [] }

  -- The select of a sender that waits for room.
  abbrev pub wait_room : Turn → M → Edge M → Option (Enqueued M)
  wait_room stop m e = some (cancel m e)
  wait_room go m e = if has_room e then some (kept (push m e)) else none

  -- The second select of drop_oldest, after the oldest message was taken.
  abbrev pub then_push : Turn → M → M → Edge M → Option (Enqueued M)
  then_push stop old m e = some (record (kept e) {
    dropped = true;
    reason = "drop_oldest";
    acks = (old, none) ∷ (m, some cancelled) ∷ [];
  })
  then_push go old m e =
      if has_room e
      then some (record (kept (push m e)) {
        dropped = true;
        reason = "drop_oldest";
        acks = (old, none) ∷ [];
      })
      else none

  abbrev pub take_oldest : Turn → List M → M → Edge M → Option (Enqueued M)
  take_oldest again [] m e = wait_room again m e
  take_oldest again (old ∷ rest) m e = then_push again old m (record e { mem = rest })

  -- sendToMemory; `again` is the turn of its second select.
  unfoldable pub send_to_memory : Turn → Turn → M → Edge M → Option (Enqueued M)
  send_to_memory stop again m e = some (cancel m e)
  send_to_memory go again m e =
      if has_room e
      then some (kept (push m e))
      else if e.strategy == "drop_newest"
      then some (drop_new "drop_newest" m e)
      else if e.strategy == "drop_oldest"
      then take_oldest again e.mem m e
      else none

  module _ (size : M → ℕ) (limits : Limits) (stored : M → M) where
    abbrev pub on_disk : Disk M → Edge M → Edge M
    on_disk d e = record e { disk = some d }

    -- What the file keeps of the message goes to the disk buffer.
    abbrev pub to_disk : M → Disk M → Option (Disk M)
    to_disk m d = append size limits (stored m) d

    -- The oldest message on disk, which is acknowledged and lost.
    abbrev pub drop_from_disk :
        M → Edge M → Disk M × Option (Option M) → Disk M × List (M × Option EdgeError)
    drop_from_disk m e (d, some (some old)) = (d, (old, none) ∷ [])
    drop_from_disk m e (d, some none) = (d, [])
    drop_from_disk m e (d, none) = (d, [])

    abbrev pub append_again : M → Edge M → Disk M × List (M × Option EdgeError) → Enqueued M
    append_again m e (d, acks) = elim (to_disk m d) [
      | none ↦ record (kept (on_disk d e)) {
        dropped = true;
        reason = "disk_full";
        error = some disk_full;
        acks = acks ++ (m, some disk_full) ∷ [];
      }
      | some d' ↦ record (kept (on_disk d' e)) {
        dropped = true;
        reason = "disk_full_drop_oldest";
        acks = acks;
      }
    ]

    -- One turn of the loop that waits for the disk.
    abbrev pub wait_disk : Turn → M → Disk M → Edge M → Option (Enqueued M)
    wait_disk stop m d e = some (record (cancel m e) { error = some cancelled })
    wait_disk go m d e = elim (to_disk m d) [ none ↦ none | some d' ↦ some (kept (on_disk d' e)) ]

    unfoldable pub handle_disk_full : Turn → M → Disk M → Edge M → Option (Enqueued M)
    unfolding append read_next
    handle_disk_full turn m d e =
        if e.strategy == "drop_newest"
        then some (drop_new "disk_full_drop_newest" m e)
        else if e.strategy == "drop_oldest"
        then some (append_again m e (drop_from_disk m e (read_next size d)))
        else wait_disk turn m d e

    unfoldable pub spill : String → Turn → M → Disk M → Edge M → Option (Enqueued M)
    unfolding handle_disk_full append
    spill reason turn m d e = elim (to_disk m d) [
      | none ↦ handle_disk_full turn m d e
      | some d' ↦ some (record (kept (on_disk d' e)) { reason = reason })
    ]

    -- Enqueue on an edge that is open.
    unfoldable pub enqueue_open : Turn → Turn → M → Edge M → Option (Enqueued M)
    unfolding send_to_memory spill
    enqueue_open turn again m e = elim e.disk [
      | none ↦
          if e.type == "disk"
          then send_to_memory turn again m e
          else if has_room e
          then some (kept (push m e))
          else send_to_memory turn again m e
      | some d ↦
          if e.type == "disk"
          then spill "" turn m d e
          else if e.type == "overflow" && not (has_room e)
          then spill "overflow_spill" turn m d e
          else if has_room e
          then some (kept (push m e))
          else send_to_memory turn again m e
    ]

    unfoldable pub enqueue : Turn → Turn → M → Edge M → Option (Enqueued M)
    unfolding enqueue_open
    enqueue turn again m e =
        if e.closed
        then some (record (cancel m e) { error = some cancelled })
        else enqueue_open turn again m e

  -- Pending, while a file is open for reading or a segment is there.
  abbrev pub pending : Disk M → Bool
  pending d = elim d.read [ none ↦ not (is_empty d.segments) | some p ↦ true ]

  abbrev pub disk_pending : Option (Disk M) → Bool
  disk_pending none = false
  disk_pending (some d) = pending d

  -- shouldStop, for a context that is done or not.
  unfoldable pub should_stop : Bool → Edge M → Bool
  should_stop done e = done && is_empty e.mem && not (disk_pending e.disk)

  -- emit
  abbrev pub emit : Turn → M → Drained M
  emit stop m = refused m
  emit go m = emitted m

  -- The select on the context and the memory channel. The context is done where its case is taken.
  unfoldable pub drain_memory : Turn → Turn → List M → Edge M → Drained M × Edge M
  unfolding should_stop
  drain_memory stop sent queue e = (if should_stop true e then ended else waiting, e)
  drain_memory go sent [] e = (if e.closed then ended else waiting, e)
  drain_memory go sent (m ∷ rest) e = (emit sent m, record e { mem = rest })

  abbrev pub after_disk : Turn → Turn → Edge M → Disk M × Option (Option M) → Drained M × Edge M
  after_disk turn sent e (d, some (some m)) = (emit sent m, record e { disk = some d })
  after_disk turn sent e (d, some none) = drain_memory turn sent e.mem (record e { disk = some d })
  after_disk turn sent e (d, none) = (ended, record e { disk = some d })

  unfoldable pub drain_turn : (M → ℕ) → Bool → Turn → Turn → Edge M → Drained M × Edge M
  unfolding should_stop drain_memory read_next
  drain_turn size done turn sent e = if should_stop done e then (ended, e) else elim e.disk [
    | none ↦ drain_memory turn sent e.mem e
    | some d ↦ after_disk turn sent e (read_next size d)
  ]

-- The message that decodeWALRecord makes of what encodeWALRecord wrote: no acknowledgement is left.
unfoldable pub stored_message {ℓ κ μ} :
    {Bytes : Type ℓ} {Data : Type κ} {Handler : Type μ}
    → Message Bytes Data Handler
    → Message Bytes Data Handler
unfolding new_message
stored_message m = record (new_message m.payload m.metadata) { id = m.id }
