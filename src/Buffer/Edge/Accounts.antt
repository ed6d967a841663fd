-- ===== src/Buffer/Edge/Accounts.antt =====
-- What becomes of a message that Enqueue (internal/buffer/edge.go) is given.
use eventr.Common.{
  not, ◌&&◌, String, List, [], ◌∷◌, ◌++◌, ℕ, ◌+◌, Option, none, some, if◌then◌else◌, inl, inr, ◌≡◌,
  ◌≢◌, refl, sym, ap, ◌∙◌, subst, arith, if_elim, option_elim,
}
use eventr.Common.Text.{◌==◌}
use eventr.Buffer.Disk.{Disk, Limits, read_next}
use eventr.Buffer.Disk.Unread.{Inv, unread}
use eventr.Buffer.Disk.Writes.{append-unread}
use eventr.Buffer.Disk.Reads.{read_next-unread, Given}
use eventr.Buffer.Edge.{
  Turn, stop, go, Edge, EdgeError, disk_full, Enqueued, has_room, push, kept, cancel, wait_room,
  take_oldest, send_to_memory, to_disk, drop_from_disk, append_again, wait_disk, handle_disk_full,
  spill, enqueue_open, enqueue,
}

module _ {ℓ} {M : Type ℓ} (name : M → String) where
  abbrev pub one : String → M → ℕ
  one k m = if name m == k then 1 else 0

  unfoldable pub count : String → List M → ℕ
  count k [] = 0
  count k (m ∷ ms) = one k m + count k ms

  abbrev pub count_acks : String → List (M × Option EdgeError) → ℕ
  count_acks k [] = 0
  count_acks k ((m, e) ∷ acks) = one k m + count_acks k acks

  abbrev pub count_disk : String → Option (Disk M) → ℕ
  count_disk k none = 0
  count_disk k (some d) = count k (unread d)

  -- How many messages with the name an edge holds.
  abbrev pub held : String → Edge M → ℕ
  held k e = count k e.mem + count_disk k e.disk

  count-append : (k : String) (xs ys : List M) → count k (xs ++ ys) ≡ count k xs + count k ys
  unfolding count
  count-append k [] ys = omega arith
  count-append k (x ∷ xs) ys = omega (arith, count-append k xs ys)

  count_acks-append :
      (k : String) (xs ys : List (M × Option EdgeError))
      → count_acks k (xs ++ ys) ≡ count_acks k xs + count_acks k ys
  count_acks-append k [] ys = omega arith
  count_acks-append k ((x, e) ∷ xs) ys = omega (arith, count_acks-append k xs ys)

  module _ (size : M → ℕ) (limits : Limits) (stored : M → M)
      (same_name : (m : M) → name (stored m) ≡ name m) where
    abbrev pub DiskInv : Option (Disk M) → Type 0
    DiskInv none = Unit
    DiskInv (some d) = Inv size d

    -- A call that returns leaves the message and those before it held or acknowledged, once each, and
    -- under drop_newest every call returns.
    abbrev pub Accounted : String → M → Edge M → Option (Enqueued M) → Type 0
    Accounted k m e none = e.strategy ≢ "drop_newest"
    Accounted k m e (some r) =
        DiskInv r.edge.disk × (held k r.edge + count_acks k r.acks ≡ held k e + one k m)

    one_stored : (k : String) (m : M) → one k (stored m) ≡ one k m
    one_stored k m = ap (λ x. if x == k then 1 else 0) (same_name m)

    push-Accounted :
        (k : String) (m : M) (e : Edge M)
        → DiskInv e.disk
        → Accounted k m e (some (kept (push m e)))
    unfolding count
    push-Accounted k m e v = (v, omega (arith, count-append k e.mem (m ∷ [])))

    cancel-Accounted :
        (k : String) (m : M) (e : Edge M) → DiskInv e.disk → Accounted k m e (some (cancel m e))
    cancel-Accounted k m e v = (v, omega arith)

    wait_room-Accounted :
        (k : String) (turn : Turn) (m : M) (e : Edge M)
        → DiskInv e.disk
        → e.strategy ≢ "drop_newest"
        → Accounted k m e (wait_room turn m e)
    wait_room-Accounted k stop m e v ne = cancel-Accounted k m e v
    wait_room-Accounted k go m e v ne =
        if_elim (Accounted k m e) (has_room e) _ _ (λ _. push-Accounted k m e v) (λ _. ne)

    take_oldest-Accounted :
        (k : String) (turn : Turn) (m : M) (e : Edge M) (queue : List M)
        → e.mem ≡ queue
        → DiskInv e.disk
        → e.strategy ≢ "drop_newest"
        → Accounted k m e (take_oldest turn queue m e)
    unfolding count
    take_oldest-Accounted k turn m e [] q v ne = wait_room-Accounted k turn m e v ne
    take_oldest-Accounted k stop m e (old ∷ rest) q v ne =
        let c : count k e.mem ≡ count k (old ∷ rest) = ap (λ x. count k x) q in
        (v, omega (arith, c))
    take_oldest-Accounted k go m e (old ∷ rest) q v ne =
        let c : count k e.mem ≡ count k (old ∷ rest) = ap (λ x. count k x) q in
        if_elim (Accounted k m e) (has_room (record e { mem = rest })) _ _
          (λ _. (v, omega (arith, c, count-append k rest (m ∷ [])))) (λ _. ne)

    send_to_memory-Accounted :
        (k : String) (turn again : Turn) (m : M) (e : Edge M)
        → DiskInv e.disk
        → Accounted k m e (send_to_memory turn again m e)
    unfolding send_to_memory
    send_to_memory-Accounted k stop again m e v = cancel-Accounted k m e v
    send_to_memory-Accounted k go again m e v =
        if_elim (Accounted k m e) (has_room e) _ _ (λ _. push-Accounted k m e v)
          (λ _.
            if_elim (Accounted k m e) (e.strategy == "drop_newest") _ _ (λ _. (v, omega arith))
              (λ f.
                let ne : e.strategy ≢ "drop_newest" = ground arith in
                if_elim (Accounted k m e) (e.strategy == "drop_oldest") _ _
                  (λ _. take_oldest-Accounted k again m e e.mem refl v ne) (λ _. ne)))

    -- An append to a disk buffer, with what it adds.
    abbrev Stored : String → M → Disk M → Option (Disk M) → Type 0
    Stored k m d none = Unit
    Stored k m d (some d') = Inv size d' × (count k (unread d') ≡ count k (unread d) + one k m)

    to_disk-Stored :
        (k : String) (m : M) (d : Disk M)
        → Inv size d
        → Stored k m d (to_disk size limits stored m d)
    unfolding count
    to_disk-Stored k m d v = elim (append-unread size limits (stored m) d v) [
      | inl (e, _) ↦ subst (Stored k m d) (sym e) tt
      | inr (d', e, _, (inv, queue, _)) ↦ subst (Stored k m d) (sym e) (
        inv,
        ap (λ x. count k x) queue
            ∙ count-append k (unread d) (stored m ∷ [])
            ∙ omega (arith, one_stored k m),
      )
    ]

    -- The oldest message on disk is out, and what was acknowledged for it.
    drop_from_disk-count :
        (k : String) (m : M) (e : Edge M) (d : Disk M) (r : Disk M × Option (Option M))
        → Given size d r
        → let (d', acks) = drop_from_disk size limits stored m e r in
          Inv size d' × (count k (unread d') + count_acks k acks ≡ count k (unread d))
    unfolding count
    drop_from_disk-count k m e d (d', none) g = absurd g.0
    drop_from_disk-count k m e d (d', some none) (v, before, after) = (
      v,
      let b : count k (unread d) ≡ 0 = ap (λ x. count k x) before in
          let a : count k (unread d') ≡ 0 = ap (λ x. count k x) after in omega (arith, a, b),
    )
    drop_from_disk-count k m e d (d', some (some old)) (v, queue) = (
      v,
      let q : count k (unread d) ≡ one k old + count k (unread d') = ap (λ x. count k x) queue in
          omega (arith, q),
    )

    append_again-Accounted :
        (k : String) (m : M) (e : Edge M) (d d' : Disk M) (acks : List (M × Option EdgeError))
        → e.disk ≡ some d
        → Inv size d'
        → count k (unread d') + count_acks k acks ≡ count k (unread d)
        → Accounted k m e (some (append_again size limits stored m e (d', acks)))
    append_again-Accounted k m e d d' acks own v c =
        let here : count_disk k e.disk ≡ count k (unread d) = ap (λ x. count_disk k x) own in
        option_elim (λ (r : Enqueued M). Accounted k m e (some r)) (to_disk size limits stored m d')
          _ _
          (λ _. (v, omega (arith, here, c, count_acks-append k acks ((m, some disk_full) ∷ []))))
          (λ d₂ put.
            let (w, more) = subst (Stored k m d') put (to_disk-Stored k m d' v) in
            (w, omega (arith, here, c, more)))

    wait_disk-Accounted :
        (k : String) (turn : Turn) (m : M) (e : Edge M) (d : Disk M)
        → e.disk ≡ some d
        → Inv size d
        → e.strategy ≢ "drop_newest"
        → Accounted k m e (wait_disk size limits stored turn m d e)
    wait_disk-Accounted k stop m e d own v ne = (subst DiskInv (sym own) v, omega arith)
    wait_disk-Accounted k go m e d own v ne =
        let here : count_disk k e.disk ≡ count k (unread d) = ap (λ x. count_disk k x) own in
        option_elim (Accounted k m e) (to_disk size limits stored m d) _ _ (λ _. ne)
          (λ d₂ put.
            let (w, more) = subst (Stored k m d) put (to_disk-Stored k m d v) in
            (w, omega (arith, here, more)))

    handle_disk_full-Accounted :
        (k : String) (turn : Turn) (m : M) (e : Edge M) (d : Disk M)
        → e.disk ≡ some d
        → Inv size d
        → Accounted k m e (handle_disk_full size limits stored turn m d e)
    unfolding handle_disk_full
    handle_disk_full-Accounted k turn m e d own v =
        let r = read_next size d in
        let after = drop_from_disk-count k m e d r (read_next-unread size d v) in
        let dropped = drop_from_disk size limits stored m e r in
        if_elim (Accounted k m e) (e.strategy == "drop_newest") _ _
          (λ _. (subst DiskInv (sym own) v, omega arith))
          (λ f.
            let ne : e.strategy ≢ "drop_newest" = ground arith in
            if_elim (Accounted k m e) (e.strategy == "drop_oldest") _ _
              (λ _. append_again-Accounted k m e d dropped.0 dropped.1 own after.0 after.1)
              (λ _. wait_disk-Accounted k turn m e d own v ne))

    spill-Accounted :
        (k reason : String) (turn : Turn) (m : M) (e : Edge M) (d : Disk M)
        → e.disk ≡ some d
        → Inv size d
        → Accounted k m e (spill size limits stored reason turn m d e)
    unfolding spill
    spill-Accounted k reason turn m e d own v =
        let here : count_disk k e.disk ≡ count k (unread d) = ap (λ x. count_disk k x) own in
        option_elim (Accounted k m e) (to_disk size limits stored m d) _ _
          (λ _. handle_disk_full-Accounted k turn m e d own v)
          (λ d₂ put.
            let (w, more) = subst (Stored k m d) put (to_disk-Stored k m d v) in
            (w, omega (arith, here, more)))

    enqueue_open-Accounted :
        (k : String) (turn again : Turn) (m : M) (e : Edge M)
        → DiskInv e.disk
        → Accounted k m e (enqueue_open size limits stored turn again m e)
    unfolding enqueue_open
    enqueue_open-Accounted k turn again m e v =
        option_elim (Accounted k m e) e.disk _ _
          (λ _.
            if_elim (Accounted k m e) (e.type == "disk") _ _
              (λ _. send_to_memory-Accounted k turn again m e v)
              (λ _.
                if_elim (Accounted k m e) (has_room e) _ _ (λ _. push-Accounted k m e v)
                  (λ _. send_to_memory-Accounted k turn again m e v)))
          (λ d own.
            let w : Inv size d = subst DiskInv own v in
            if_elim (Accounted k m e) (e.type == "disk") _ _
              (λ _. spill-Accounted k "" turn m e d own w)
              (λ _.
                if_elim (Accounted k m e) (e.type == "overflow" && not (has_room e)) _ _
                  (λ _. spill-Accounted k "overflow_spill" turn m e d own w)
                  (λ _.
                    if_elim (Accounted k m e) (has_room e) _ _ (λ _. push-Accounted k m e v)
                      (λ _. send_to_memory-Accounted k turn again m e v))))

    -- For an edge whose disk buffer, if there is one, keeps its invariant, and where a stored
    -- message keeps its name: after a call of Enqueue that returns, the messages that the edge
    -- holds in memory or on disk and those that were acknowledged are those held before and the new
    -- one, once each; the invariant is kept; and under drop_newest the call returns.
    pub enqueue-Accounted :
        (k : String) (turn again : Turn) (m : M) (e : Edge M)
        → DiskInv e.disk
        → Accounted k m e (enqueue size limits stored turn again m e)
    unfolding enqueue
    enqueue-Accounted k turn again m e v =
        if_elim (Accounted k m e) e.closed _ _ (λ _. cancel-Accounted k m e v)
          (λ _. enqueue_open-Accounted k turn again m e v)
