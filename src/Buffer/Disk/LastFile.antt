-- ===== src/Buffer/Disk/LastFile.antt =====
-- A record at the end of the last segment file (internal/buffer/disk.go).
use mathlib.Core.List.{append-nil, append_assoc}
use eventr.Common.{
  true, false, List, [], ◌∷◌, ◌++◌, ℕ, ◌+◌, ◌≤◌, ◌<◌, ◌≡◌, Option, none, some, All, drop, arith,
  eqb, Bool-cases, inl, inr, length-append, sym,
}
use eventr.Buffer.Disk.{Segment, Place, total_size, append_to}
use eventr.Buffer.Disk.Unread.{
  all_records, unread_at, unread_from, Increasing, LastIs, AtHead, Placed,
}
use eventr.Buffer.Disk.Snoc.{drop-append, file_size-append}

module _ {ℓ} {M : Type ℓ} (size : M → ℕ) where
  pub LastIs-le :
      (n : ℕ) (segs : List (Segment M))
      → LastIs n segs
      → Increasing segs
      → All (λ s. s.number ≤ n) segs
  LastIs-le n [] h o = tt
  LastIs-le n (s ∷ []) h o = (omega arith, tt)
  LastIs-le n (s ∷ t ∷ segs) h (above, o) =
      let later = LastIs-le n (t ∷ segs) h o in (omega (arith, later.0, above.0), later)

  -- The record goes to the end of the last file, which is the one that is written.
  pub append_to-records :
      (n : ℕ) (m : M) (segs : List (Segment M))
      → LastIs n segs
      → Increasing segs
      → all_records (append_to size n m segs) ≡ all_records segs ++ m ∷ []
  unfolding append_to
  append_to-records n m [] h o = absurd h
  append_to-records n m (s ∷ []) h o =
      let hit : eqb s.number n ≡ true = ground arith in rw (hit, append_to) (simp append-nil)
  append_to-records n m (s ∷ t ∷ segs) h (above, o) =
      let ih = append_to-records n m (t ∷ segs) h o in
      let le = LastIs-le n (t ∷ segs) h o in
      let other : eqb s.number n ≡ false = ground (arith, above.0, le.0) in
      rw (other, append_to) (rw ih (sym (append_assoc s.records _ _)))

  pub append_to-unread_at :
      (n : ℕ) (m : M) (p : Place) (segs : List (Segment M))
      → LastIs n segs
      → Increasing segs
      → AtHead p segs
      → unread_at p (append_to size n m segs) ≡ unread_at p segs ++ m ∷ []
  unfolding append_to
  append_to-unread_at n m p [] h o a = absurd h
  append_to-unread_at n m p (s ∷ []) h o a =
      let hit : eqb s.number n ≡ true = ground arith in
      rw (hit, append_to) (simp (append-nil, drop-append size p.offset s.records (m ∷ []) a.1))
  append_to-unread_at n m p (s ∷ t ∷ segs) h (above, o) a =
      let ih = append_to-records n m (t ∷ segs) h o in
      let le = LastIs-le n (t ∷ segs) h o in
      let other : eqb s.number n ≡ false = ground (arith, above.0, le.0) in
      rw (other, append_to) (rw ih (sym (append_assoc (drop p.offset s.records) _ _)))

  pub append_to-unread :
      (n : ℕ) (m : M) (c : Option Place) (segs : List (Segment M))
      → LastIs n segs
      → Increasing segs
      → Placed c segs
      → unread_from c (append_to size n m segs) ≡ unread_from c segs ++ m ∷ []
  append_to-unread n m none segs h o a = append_to-records n m segs h o
  append_to-unread n m (some p) segs h o a = append_to-unread_at n m p segs h o a

  pub append_to-total :
      (n : ℕ) (m : M) (segs : List (Segment M))
      → LastIs n segs
      → total_size size (append_to size n m segs) ≡ total_size size segs + size m
  unfolding append_to
  append_to-total n m [] h = absurd h
  append_to-total n m (s ∷ []) h =
      let hit : eqb s.number n ≡ true = ground arith in
      rw (hit, append_to) (omega (arith, file_size-append size s.records (m ∷ [])))
  append_to-total n m (s ∷ t ∷ segs) h = elim (Bool-cases (eqb s.number n)) [
    | inl hit ↦ rw (hit, append_to) (omega (arith, file_size-append size s.records (m ∷ [])))
    | inr other ↦ rw (other, append_to) (omega (arith, append_to-total n m (t ∷ segs) h))
  ]

  pub append_to-above :
      (k n : ℕ) (m : M) (segs : List (Segment M))
      → All (λ t. k < t.number) segs
      → All (λ t. k < t.number) (append_to size n m segs)
  unfolding append_to
  append_to-above k n m [] h = tt
  append_to-above k n m (s ∷ segs) (h, hs) = elim (Bool-cases (eqb s.number n)) [
    | inl hit ↦ rw (hit, append_to) (h, hs)
    | inr other ↦ rw (other, append_to) (h, append_to-above k n m segs hs)
  ]

  pub append_to-Increasing :
      (n : ℕ) (m : M) (segs : List (Segment M))
      → Increasing segs
      → Increasing (append_to size n m segs)
  unfolding append_to
  append_to-Increasing n m [] h = tt
  append_to-Increasing n m (s ∷ segs) (h, hs) = elim (Bool-cases (eqb s.number n)) [
    | inl hit ↦ rw (hit, append_to) (h, hs)
    | inr other ↦
        rw (other, append_to)
          (append_to-above s.number n m segs h, append_to-Increasing n m segs hs)
  ]

  pub LastIs-cons :
      (k : ℕ) (s : Segment M) (segs : List (Segment M)) → LastIs k segs → LastIs k (s ∷ segs)
  LastIs-cons k s [] h = absurd h
  LastIs-cons k s (t ∷ segs) h = h

  pub append_to-LastIs :
      (k n : ℕ) (m : M) (segs : List (Segment M))
      → LastIs k segs
      → LastIs k (append_to size n m segs)
  unfolding append_to
  append_to-LastIs k n m [] h = h
  append_to-LastIs k n m (s ∷ []) h = elim (Bool-cases (eqb s.number n)) [
    | inl hit ↦ rw (hit, append_to) h
    | inr other ↦ rw (other, append_to) h
  ]
  append_to-LastIs k n m (s ∷ t ∷ segs) h = elim (Bool-cases (eqb s.number n)) [
    | inl hit ↦ rw (hit, append_to) h
    | inr other ↦
        rw (other, append_to)
          (LastIs-cons k s (append_to size n m (t ∷ segs)) (append_to-LastIs k n m (t ∷ segs) h))
  ]

  pub append_to-Placed :
      (n : ℕ) (m : M) (c : Option Place) (segs : List (Segment M))
      → Placed c segs
      → Placed c (append_to size n m segs)
  unfolding append_to
  append_to-Placed n m none segs h = tt
  append_to-Placed n m (some p) [] h = h
  append_to-Placed n m (some p) (s ∷ segs) h = elim (Bool-cases (eqb s.number n)) [
    | inl hit ↦ rw (hit, append_to) (h.0, omega (arith, length-append s.records (m ∷ []), h.1))
    | inr other ↦ rw (other, append_to) h
  ]
