-- ===== src/Buffer/Disk/Ends.antt =====
-- A read at a place of the first segment (internal/buffer/disk.go), and at its end.
use eventr.Common.{
  true, false, List, [], ◌∷◌, ℕ, suc, ◌-◌, ◌<◌, ◌≡◌, ◌≢◌, refl, Option, none, some, length,
  get_elem?, arith, inl, inr, subst, sym, ◌⊎◌, ◌∙◌,
}
use eventr.Buffer.Disk.{
  Segment, Writer, Place, Disk, total_size, records_of, remove, record_at, is_written, size_of,
  drop_segment,
}
use eventr.Buffer.Disk.Unread.{all_records, unread_at, Increasing, LastIs, Written, AtHead, Inv}
use eventr.Buffer.Disk.Opened.{drop-none, drop-some}

module _ {ℓ} {M : Type ℓ} (size : M → ℕ) where
  records_of-head :
      (p : Place) (s : Segment M) (segs : List (Segment M))
      → p.segment ≡ s.number
      → records_of p.segment (s ∷ segs) ≡ some s.records
  unfolding records_of
  records_of-head p s segs h = ground arith

  remove-head :
      (p : Place) (s : Segment M) (segs : List (Segment M))
      → p.segment ≡ s.number
      → remove p.segment (s ∷ segs) ≡ segs
  unfolding remove
  remove-head p s segs h = ground arith

  record_at-head :
      (p : Place) (s : Segment M) (segs : List (Segment M))
      → p.segment ≡ s.number
      → record_at p (s ∷ segs) ≡ get_elem? s.records p.offset
  record_at-head p s segs h = rw (records_of-head p s segs h, record_at) refl

  -- The record at the place is the first that is unread.
  pub record_at-unread :
      (p : Place) (segs : List (Segment M)) (m : M)
      → AtHead p segs
      → record_at p segs ≡ some m
      → let p' = record p { offset = suc p.offset } in
        (unread_at p segs ≡ m ∷ unread_at p' segs) × AtHead p' segs
  record_at-unread p [] m a h = absurd a
  record_at-unread p (s ∷ segs) m (a, b) h =
      let (c, k) = drop-some s.records p.offset m (sym (record_at-head p s segs a) ∙ h) in
      (rw c refl, (a, k))

  -- At the end of the first file, what is unread is in the others.
  pub record_at-end :
      (p : Place) (segs : List (Segment M))
      → AtHead p segs
      → record_at p segs ≡ none
      → unread_at p segs ≡ all_records (remove p.segment segs)
  record_at-end p [] a h = absurd a
  record_at-end p (s ∷ segs) (a, b) h =
      let c = drop-none s.records p.offset (sym (record_at-head p s segs a) ∙ h) b in
      rw (c, remove-head p s segs a) refl

  LastIs-some :
      (n : ℕ) (s : Segment M) (segs : List (Segment M))
      → LastIs n (s ∷ segs)
      → Increasing (s ∷ segs)
      → (segs ≡ []) ⊎ (s.number < n)
  LastIs-some n s [] h o = inl refl
  LastIs-some n s (t ∷ segs) h (above, o) = elim (LastIs-some n t segs h o) [
    | inl e ↦ inr (above-last segs e h)
    | inr k ↦ inr (omega (arith, above.0, k))
  ]
    where
      above-last : (segs : List (Segment M)) → segs ≡ [] → LastIs n (t ∷ segs) → s.number < n
      above-last [] e h = omega (arith, above.0, h)
      above-last (u ∷ segs) e h = cc

  pub record_at-Written :
      (p : Place) (w : Option Writer) (segs : List (Segment M))
      → AtHead p segs
      → Increasing segs
      → Written w segs
      → is_written p w ≡ true
      → remove p.segment segs ≡ []
  record_at-Written p w [] a o l h = absurd a
  record_at-Written p none (s ∷ segs) a o l h = cc
  record_at-Written p (some w) (s ∷ segs) (a, b) o l h = elim (LastIs-some w.segment s segs l o) [
    | inl e ↦ remove-head p s segs a ∙ e
    | inr k ↦ absurd (ground arith)
  ]

  -- What is left once the first segment goes.
  pub record Removed (p : Place) (w : Option Writer) (segs : List (Segment M)) : Type 0 where
    pub ordered : Increasing (remove p.segment segs)
    pub written : Written w (remove p.segment segs)
    pub counted :
        total_size size segs - size_of size (records_of p.segment segs)
        ≡ total_size size (remove p.segment segs)
    pub fewer : suc (length (remove p.segment segs)) ≡ length segs

  LastIs-tail :
      (n : ℕ) (s : Segment M) (segs : List (Segment M))
      → s.number ≢ n
      → LastIs n (s ∷ segs)
      → LastIs n segs
  LastIs-tail n s [] e h = absurd (e h)
  LastIs-tail n s (t ∷ segs) e h = h

  Written-tail :
      (p : Place) (w : Option Writer) (s : Segment M) (segs : List (Segment M))
      → p.segment ≡ s.number
      → Written w (s ∷ segs)
      → is_written p w ≡ false
      → Written w segs
  Written-tail p none s segs a h e = tt
  Written-tail p (some w) s segs a h e = LastIs-tail w.segment s segs (λ f. absurd (ground arith)) h

  pub remove-Removed :
      (p : Place) (w : Option Writer) (segs : List (Segment M))
      → AtHead p segs
      → Increasing segs
      → Written w segs
      → is_written p w ≡ false
      → Removed p w segs
  remove-Removed p w [] a o l h = absurd a
  remove-Removed p w (s ∷ segs) (a, b) (above, o) l h =
      let e = sym (remove-head p s segs a) in
      record {
        ordered = subst Increasing e o;
        written = subst (Written w) e (Written-tail p w s segs a l h);
        counted = rw (records_of-head p s segs a, remove-head p s segs a) (omega arith);
        fewer = rw (remove-head p s segs a) (omega arith);
      }

  pub drop_segment-Inv :
      (p : Place) (d : Disk M)
      → Inv size d
      → Removed p d.writer d.segments
      → Inv size (drop_segment size p d)
  unfolding drop_segment
  drop_segment-Inv p d v r = record {
    ordered = r.ordered;
    written = r.written;
    placed = tt;
    counted = rw v.counted r.counted;
  }
