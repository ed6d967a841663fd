-- ===== src/Buffer/Disk/Snoc.antt =====
-- A new segment at the end of a disk buffer's list (newSegmentLocked of internal/buffer/disk.go).
use eventr.Common.{
  List, [], ◌∷◌, ◌++◌, ℕ, zero, suc, ◌+◌, ◌≤◌, ◌<◌, ◌≡◌, refl, Option, none, some, All, length,
  drop, arith,
}
use eventr.Buffer.Disk.{Segment, Place, file_size, total_size, next_number}
use eventr.Buffer.Disk.Unread.{all_records, unread_from, Increasing, LastIs, Placed}

module _ {ℓ} {M : Type ℓ} (size : M → ℕ) where
  pub drop-append : (n : ℕ) (xs ys : List M) → n ≤ length xs → drop n (xs ++ ys) ≡ drop n xs ++ ys
  drop-append zero xs ys h = refl
  drop-append (suc n) [] ys h = absurd (omega arith)
  drop-append (suc n) (x ∷ xs) ys h = drop-append n xs ys (omega arith)

  pub file_size-append :
      (xs ys : List M) → file_size size (xs ++ ys) ≡ file_size size xs + file_size size ys
  file_size-append [] ys = omega arith
  file_size-append (x ∷ xs) ys = omega (arith, file_size-append xs ys)

  pub below-next :
      (segs : List (Segment M)) → Increasing segs → All (λ s. s.number < next_number size segs) segs
  unfolding next_number
  below-next [] h = tt
  below-next (s ∷ []) h = (omega arith, tt)
  below-next (s ∷ t ∷ segs) (above, h) =
      let later = below-next (t ∷ segs) h in (omega (arith, later.0, above.0), later)

  pub Increasing-snoc :
      (segs : List (Segment M)) (new : Segment M)
      → Increasing segs
      → All (λ s. s.number < new.number) segs
      → Increasing (segs ++ new ∷ [])
  Increasing-snoc [] new h k = (tt, tt)
  Increasing-snoc (s ∷ segs) new (above, h) (k, ks) =
      (All-snoc segs above k, Increasing-snoc segs new h ks)
    where
      All-snoc :
          (xs : List (Segment M))
          → All (λ t. s.number < t.number) xs
          → s.number < new.number
          → All (λ t. s.number < t.number) (xs ++ new ∷ [])
      All-snoc [] a b = (b, tt)
      All-snoc (x ∷ xs) (a, as_) b = (a, All-snoc xs as_ b)

  pub LastIs-snoc :
      (segs : List (Segment M)) (new : Segment M) → LastIs new.number (segs ++ new ∷ [])
  LastIs-snoc [] new = refl
  LastIs-snoc (s ∷ []) new = refl
  LastIs-snoc (s ∷ t ∷ segs) new = LastIs-snoc (t ∷ segs) new

  pub all_records-snoc :
      (segs : List (Segment M)) (n : ℕ)
      → all_records (segs ++ record { number = n; records = [] } ∷ []) ≡ all_records segs
  all_records-snoc [] n = refl
  all_records-snoc (s ∷ segs) n = rw (all_records-snoc segs n)

  pub total_size-snoc :
      (segs : List (Segment M)) (n : ℕ)
      → total_size size (segs ++ record { number = n; records = [] } ∷ []) ≡ total_size size segs
  total_size-snoc [] n = omega arith
  total_size-snoc (s ∷ segs) n = omega (arith, total_size-snoc segs n)

  pub Placed-snoc :
      (c : Option Place) (segs : List (Segment M)) (new : Segment M)
      → Placed c segs
      → Placed c (segs ++ new ∷ [])
  Placed-snoc none segs new h = tt
  Placed-snoc (some p) (s ∷ segs) new h = h
  Placed-snoc (some p) [] new h = absurd h

  pub unread_from-snoc :
      (c : Option Place) (segs : List (Segment M)) (n : ℕ)
      → Placed c segs
      → unread_from c (segs ++ record { number = n; records = [] } ∷ []) ≡ unread_from c segs
  unread_from-snoc none segs n h = all_records-snoc segs n
  unread_from-snoc (some p) [] n h = absurd h
  unread_from-snoc (some p) (s ∷ segs) n h = rw (all_records-snoc segs n)
