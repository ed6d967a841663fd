-- ===== src/Buffer/Disk/Writes.antt =====
-- Append of internal/buffer/disk.go puts a message at the end of what is unread.
use eventr.Common.{
  [], ◌∷◌, ◌++◌, ℕ, ◌+◌, ◌≤◌, ◌<◌, ◌≡◌, refl, none, some, arith, ltb, leb, Bool-cases, Option-cases,
  inl, inr, subst, sym, ◌⊎◌,
}
use eventr.Buffer.Disk.{
  Writer, Disk, Limits, next_number, append_to, new_segment, ensure_writer, write, append,
}
use eventr.Buffer.Disk.Unread.{cursor_of, unread, LastIs, Written, Inv}
use eventr.Buffer.Disk.Snoc.{
  below-next, Increasing-snoc, LastIs-snoc, total_size-snoc, Placed-snoc, unread_from-snoc,
}
use eventr.Buffer.Disk.LastFile.{
  append_to-unread, append_to-total, append_to-Increasing, append_to-LastIs, append_to-Placed,
}

module _ {ℓ} {M : Type ℓ} (size : M → ℕ) where
  -- What ensureWriter leaves: the invariant, the same unread messages, and an open file.
  record Ready (d d' : Disk M) : Type ℓ where
    inv : Inv size d'
    same : unread d' ≡ unread d
    total : d'.total ≡ d.total
    file : (w : Writer) × (d'.writer ≡ some w)

  new_segment-Ready : (d : Disk M) → Inv size d → Ready d (new_segment size d)
  unfolding new_segment
  new_segment-Ready d v =
      let n = next_number size d.segments in
      let c = cursor_of d.read d.saved in
      record {
        inv = record {
          ordered =
              Increasing-snoc size d.segments _ v.ordered (below-next size d.segments v.ordered);
          written = LastIs-snoc size d.segments _;
          placed = Placed-snoc size c d.segments _ v.placed;
          counted = omega (arith, v.counted, total_size-snoc size d.segments n);
        };
        same = unread_from-snoc size c d.segments n v.placed;
        total = refl;
        file = (_, refl);
      }

  ensure_writer-cases :
      (limits : Limits) (d : Disk M)
      → (ensure_writer size limits d ≡ new_segment size d)
        ⊎ (ensure_writer size limits d ≡ d) × ((w : Writer) × (d.writer ≡ some w))
  unfolding ensure_writer
  ensure_writer-cases limits d = elim (Option-cases d.writer) [
    | inl e ↦ inl (ground arith)
    | inr (w, e) ↦ elim (Bool-cases (ltb w.size limits.segment_size)) [
      | inl room ↦ inr (ground arith, (w, e))
      | inr full ↦ inl (ground arith)
    ]
  ]

  ensure_writer-Ready :
      (limits : Limits) (d : Disk M) → Inv size d → Ready d (ensure_writer size limits d)
  ensure_writer-Ready limits d v = elim (ensure_writer-cases limits d) [
    | inl e ↦ subst (Ready d) (sym e) (new_segment-Ready d v)
    | inr (e, file) ↦
        subst (Ready d) (sym e) (record { inv = v; same = refl; total = refl; file = file })
  ]

  abbrev written_to : M → Disk M → Writer → Disk M
  written_to m d w = record d {
    segments = append_to size w.segment m d.segments;
    writer = some (record w { size = w.size + size m });
    total = d.total + size m;
  }

  write-eq :
      (m : M) (d : Disk M) (w : Writer) → d.writer ≡ some w → write size m d ≡ written_to m d w
  unfolding write
  write-eq m d w e = ground arith

  -- What one more message does to the queue.
  abbrev pub Appended : M → Disk M → Disk M → Type ℓ
  Appended m d d' = Inv size d' × (unread d' ≡ unread d ++ m ∷ []) × (d'.total ≡ d.total + size m)

  write-Appended :
      (m : M) (d : Disk M) (w : Writer)
      → d.writer ≡ some w
      → Inv size d
      → Appended m d (write size m d)
  write-Appended m d w e v =
      let last : LastIs w.segment d.segments = subst (λ x. Written x d.segments) e v.written in
      let c = cursor_of d.read d.saved in
      subst (Appended m d) (sym (write-eq m d w e)) (
        record {
          ordered = append_to-Increasing size w.segment m d.segments v.ordered;
          written = append_to-LastIs size w.segment w.segment m d.segments last;
          placed = append_to-Placed size w.segment m c d.segments v.placed;
          counted = omega (arith, v.counted, append_to-total size w.segment m d.segments last);
        },
        append_to-unread size w.segment m c d.segments last v.ordered v.placed,
        refl,
      )

  pub append-unread :
      (limits : Limits) (m : M) (d : Disk M)
      → Inv size d
      → (append size limits m d ≡ none) × (limits.max_size ≤ d.total)
        ⊎ (d' : Disk M) × (append size limits m d ≡ some d')
          × (d.total < limits.max_size)
          × Appended m d d'
  unfolding append
  append-unread limits m d v = elim (Bool-cases (leb limits.max_size d.total)) [
    | inl full ↦ inl (ground arith, ground arith)
    | inr room ↦
        let d₁ = ensure_writer size limits d in
        let r = ensure_writer-Ready limits d v in
        let (w, e) = r.file in
        let (inv, queue, grown) = write-Appended m d₁ w e r.inv in
        inr (
          write size m d₁,
          ground arith,
          ground arith,
          (inv, rw (← r.same) queue, omega (arith, r.total, grown)),
        )
  ]
