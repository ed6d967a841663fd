-- ===== src/Buffer/Edge/Drains.antt =====
-- What drainLoop (internal/buffer/edge.go) gives out, and when it ends.
use eventr.Common.{
  Bool, true, false, not, ◌&&◌, String, List, [], ◌∷◌, ℕ, ◌+◌, Option, none, some, if◌then◌else◌,
  ◌≡◌, ◌≢◌, refl, ap, ◌∙◌, subst, arith, if_elim, option_elim, is_empty,
}
use eventr.Buffer.Disk.{Disk, Place, Segment, read_next}
use eventr.Buffer.Disk.Unread.{Inv, unread, cursor_of, unread_from}
use eventr.Buffer.Disk.Reads.{read_next-unread, Given}
use eventr.Buffer.Edge.{
  Turn, stop, go, Edge, Drained, emitted, refused, ended, waiting, pending, disk_pending,
  should_stop, emit, drain_memory, after_disk, drain_turn,
}
use eventr.Buffer.Edge.Accounts.{one, count, held, count_disk}

module _ {ℓ} {M : Type ℓ} (name : M → String) where
  -- The message that a turn takes from the edge.
  abbrev pub given : String → Drained M → ℕ
  given k (emitted m) = one name k m
  given k (refused m) = one name k m
  given k ended = 0
  given k waiting = 0

  module _ (size : M → ℕ) where
    abbrev DiskKept : Option (Disk M) → Type 0
    DiskKept none = Unit
    DiskKept (some d) = Inv size d

    -- A turn keeps the invariant of the disk buffer, takes at most the message that it gives, and ends
    -- the loop only where nothing is held.
    pub record IsDrain (k : String) (e : Edge M) (r : Drained M × Edge M) : Type ℓ where
      pub inv : DiskKept r.1.disk
      pub taken : held name k r.1 + given k r.0 ≡ held name k e
      pub empty : r.0 ≡ ended → held name k r.1 ≡ 0

    given-emit : (k : String) (turn : Turn) (m : M) → given k (emit turn m) ≡ one name k m
    given-emit k stop m = refl
    given-emit k go m = refl

    emit-goes_on : (turn : Turn) (m : M) → emit turn m ≢ ended
    emit-goes_on stop m h = cc
    emit-goes_on go m h = cc

    -- A turn that gives nothing out, with nothing held where it ends.
    IsDrain-still :
        (k : String) (e : Edge M) (b : Bool)
        → DiskKept e.disk
        → (b ≡ true → held name k e ≡ 0)
        → IsDrain k e (if b then ended else waiting, e)
    IsDrain-still k e true v h = record { inv = v; taken = omega arith; empty = λ q. h refl }
    IsDrain-still k e false v h = record { inv = v; taken = omega arith; empty = λ q. cc }

    -- The memory and the disk hold nothing where the loop should stop.
    nothing_unread :
        (k : String) (place saved : Option Place) (segs : List (Segment M))
        → elim place [ none ↦ not (is_empty segs) | some p ↦ true ] ≡ false
        → count name k (unread_from (cursor_of place saved) segs) ≡ 0
    unfolding count
    nothing_unread k none none [] h = refl
    nothing_unread k none (some p) [] h = refl
    nothing_unread k none saved (s ∷ segs) h = cc
    nothing_unread k (some p) saved segs h = cc

    stopped_empty :
        (k : String) (done : Bool) (mem : List M) (disk : Option (Disk M))
        → (done && is_empty mem && not (disk_pending disk)) ≡ true
        → count name k mem + count_disk name k disk ≡ 0
    unfolding count
    stopped_empty k done [] none h = omega arith
    stopped_empty k done [] (some d) h =
        let n = nothing_unread k d.read d.saved d.segments (ground arith) in omega (arith, n)
    stopped_empty k done (m ∷ mem) disk h = ground arith

    drain_memory-IsDrain :
        (k : String) (turn sent : Turn) (e : Edge M)
        → DiskKept e.disk
        → count_disk name k e.disk ≡ 0
        → (queue : List M) → e.mem ≡ queue
        → IsDrain k e (drain_memory turn sent queue e)
    unfolding drain_memory should_stop count
    drain_memory-IsDrain k stop sent e v n queue q =
        IsDrain-still k e (should_stop true e) v (stopped_empty k true e.mem e.disk)
    drain_memory-IsDrain k go sent e v n [] q =
        IsDrain-still k e e.closed v
          (λ _. let c : count name k e.mem ≡ 0 = ap (λ x. count name k x) q in omega (arith, c, n))
    drain_memory-IsDrain k go sent e v n (m ∷ rest) q = record {
      inv = v;
      taken =
          let c : count name k e.mem ≡ one name k m + count name k rest =
            ap (λ x. count name k x) q in
          omega (arith, c, given-emit k sent m);
      empty = λ h. absurd (emit-goes_on sent m h);
    }

    IsDrain-along :
        (k : String) (e e' : Edge M) (r : Drained M × Edge M)
        → held name k e' ≡ held name k e
        → IsDrain k e' r
        → IsDrain k e r
    IsDrain-along k e e' r same d = record { inv = d.inv; taken = d.taken ∙ same; empty = d.empty }

    after_disk-IsDrain :
        (k : String) (turn sent : Turn) (e : Edge M) (d : Disk M) (r : Disk M × Option (Option M))
        → e.disk ≡ some d
        → Given size d r
        → IsDrain k e (after_disk turn sent e r)
    unfolding count
    after_disk-IsDrain k turn sent e d (d', none) own g = absurd g.0
    after_disk-IsDrain k turn sent e d (d', some none) own (v, before, after) =
        let here : count_disk name k e.disk ≡ count name k (unread d) =
          ap (count_disk name k) own in
        let b : count name k (unread d) ≡ 0 = ap (count name k) before in
        let a : count name k (unread d') ≡ 0 = ap (count name k) after in
        let e' = record e { disk = some d' } in
        IsDrain-along k e e' _ (omega (arith, here, a, b))
          (drain_memory-IsDrain k turn sent e' v a e.mem refl)
    after_disk-IsDrain k turn sent e d (d', some (some m)) own (v, queue) = record {
      inv = v;
      taken =
          let here : count_disk name k e.disk ≡ count name k (unread d) =
            ap (count_disk name k) own in
          let q : count name k (unread d) ≡ one name k m + count name k (unread d') =
            ap (count name k) queue in
          omega (arith, here, q, given-emit k sent m);
      empty = λ h. absurd (emit-goes_on sent m h);
    }

    -- For an edge whose disk buffer, if there is one, keeps its invariant: a turn of drainLoop
    -- keeps it, takes from the edge the message that it gives out or acknowledges and no other, and
    -- ends the loop without a message only where the edge holds none in memory or on disk.
    pub drain_turn-IsDrain :
        (k : String) (done : Bool) (turn sent : Turn) (e : Edge M)
        → DiskKept e.disk
        → IsDrain k e (drain_turn size done turn sent e)
    unfolding drain_turn should_stop
    drain_turn-IsDrain k done turn sent e v =
        if_elim (IsDrain k e) (should_stop done e) _ _
          (λ h. record {
            inv = v;
            taken = omega arith;
            empty = λ _. stopped_empty k done e.mem e.disk h;
          })
          (λ _.
            option_elim (IsDrain k e) e.disk _ _
              (λ none_there.
                drain_memory-IsDrain k turn sent e v (ap (count_disk name k) none_there) e.mem refl)
              (λ d own.
                after_disk-IsDrain k turn sent e d (read_next size d) own
                  (read_next-unread size d (subst DiskKept own v))))

-- An open edge with a disk buffer and nothing in memory.
abbrev pub idle_edge {ℓ} : {M : Type ℓ} → String → String → ℕ → Disk M → Edge M
idle_edge type strategy capacity d = record {
  type = type;
  strategy = strategy;
  capacity = capacity;
  mem = [];
  disk = some d;
  closed = false;
}

module _ {ℓ} {M : Type ℓ} (type strategy : String) (capacity : ℕ) where
  still_pending :
      (done : Bool) (d : Disk M)
      → pending d ≡ true
      → should_stop done (idle_edge type strategy capacity d) ≡ false
  unfolding should_stop
  still_pending done d left = ground arith

  memory_waits :
      (turn sent : Turn) (d : Disk M)
      → pending d ≡ true
      → drain_memory turn sent [] (idle_edge type strategy capacity d)
        ≡ (waiting, idle_edge type strategy capacity d)
  unfolding drain_memory
  memory_waits stop sent d left =
      ap (λ b. (if b then ended else waiting, idle_edge type strategy capacity d))
        (still_pending true d left)
  memory_waits go sent d left = refl

  -- For an open edge with nothing in memory, whose disk buffer has nothing to read but is still
  -- pending, a turn of drainLoop changes nothing and does not end the loop, also when the context
  -- is done.
  pub drain_turn-waits :
      (size : M → ℕ) (done : Bool) (turn sent : Turn) (d : Disk M)
      → read_next size d ≡ (d, some none)
      → pending d ≡ true
      → drain_turn size done turn sent (idle_edge type strategy capacity d)
        ≡ (waiting, idle_edge type strategy capacity d)
  unfolding drain_turn
  drain_turn-waits size done turn sent d all_read left =
      let e = idle_edge type strategy capacity d in
      if_elim (λ (r : Drained M × Edge M). r ≡ (waiting, e)) (should_stop done e) _ _
        (λ h. absurd (let f = still_pending done d left in ground arith))
        (λ _. ap (after_disk turn sent e) all_read ∙ memory_waits turn sent d left)
