-- ===== src/Buffer/Disk/Opened.antt =====
-- openReadSegmentLocked of internal/buffer/disk.go leaves what is unread as it is.
use eventr.Common.{
  List, [], ◌∷◌, ℕ, zero, suc, ◌≤◌, ◌≡◌, refl, Option, none, some, length, drop, get_elem?, arith,
  Option-cases, inl, inr, subst, sym, ◌⊎◌, ◌∙◌,
}
use eventr.Buffer.Disk.{Segment, Place, Disk, saved_or_start, open_read}
use eventr.Buffer.Disk.Unread.{cursor_of, unread_from, unread, AtHead, Placed, Inv}

module _ {ℓ} {M : Type ℓ} where
  pub drop-none : (xs : List M) (i : ℕ) → get_elem? xs i ≡ none → i ≤ length xs → drop i xs ≡ []
  drop-none [] zero h k = refl
  drop-none [] (suc i) h k = refl
  drop-none (x ∷ xs) zero h k = cc
  drop-none (x ∷ xs) (suc i) h k = drop-none xs i h (omega arith)

  pub drop-some :
      (xs : List M) (i : ℕ) (m : M)
      → get_elem? xs i ≡ some m
      → (drop i xs ≡ m ∷ drop (suc i) xs) × (suc i ≤ length xs)
  drop-some [] i m h = cc
  drop-some (x ∷ xs) zero m h = (ground arith, omega arith)
  drop-some (x ∷ xs) (suc i) m h = let (a, b) = drop-some xs i m h in (a, omega (arith, b))

  module _ (size : M → ℕ) where
    -- An open file where there is one.
    Opened : Disk M → Type ℓ
    Opened d = d.read ≡ none → d.segments ≡ []

    -- What openReadSegmentLocked leaves.
    pub record Opens (d d' : Disk M) : Type ℓ where
      pub inv : Inv size d'
      pub same : unread d' ≡ unread d
      pub segments : d'.segments ≡ d.segments
      pub is_open : d'.read ≡ none → d'.segments ≡ []

    open_read-cases :
        (d : Disk M)
        → ((p : Place) × (d.read ≡ some p) × (open_read d ≡ d))
          ⊎ (d.read ≡ none) × (open_read d ≡ record d { read = saved_or_start d.saved d.segments })
    unfolding open_read
    open_read-cases d = elim (Option-cases d.read) [
      | inl e ↦ inr (e, ground arith)
      | inr (p, e) ↦ inl (p, e, ground arith)
    ]

    saved_or_start-kept :
        (p : Place) (segs : List (Segment M))
        → AtHead p segs
        → saved_or_start (some p) segs ≡ some p
    unfolding saved_or_start
    saved_or_start-kept p [] h = absurd h
    saved_or_start-kept p (s ∷ segs) h = ground arith

    -- A read file at the saved place, or at the start, reads what was unread.
    opened_at :
        (saved : Option Place) (segs : List (Segment M))
        → Placed saved segs
        → let c = cursor_of (saved_or_start saved segs) saved in
          Placed c segs
          × (unread_from c segs ≡ unread_from saved segs)
          × (saved_or_start saved segs ≡ none → segs ≡ [])
    unfolding saved_or_start
    opened_at none [] h = (tt, refl, λ e. refl)
    opened_at none (s ∷ segs) h = ((refl, omega arith), refl, λ e. cc)
    opened_at (some p) segs h = rw (saved_or_start-kept p segs h) (h, refl, λ e. cc)

    pub open_read-Opens : (d : Disk M) → Inv size d → Opens d (open_read d)
    open_read-Opens d v = elim (open_read-cases d) [
      | inl (p, e, f) ↦
          subst (Opens d) (sym f)
            (record { inv = v; same = refl; segments = refl; is_open = λ g. absurd (ground arith) })
      | inr (e, f) ↦
          let placed : Placed d.saved d.segments =
            subst (λ r. Placed (cursor_of r d.saved) d.segments) e v.placed in
          let (a, b, c) = opened_at d.saved d.segments placed in
          let before : unread_from d.saved d.segments ≡ unread d =
            subst
              (λ r. unread_from d.saved d.segments ≡ unread_from (cursor_of r d.saved) d.segments)
              (sym e) refl in
          subst (Opens d) (sym f) (record {
            inv = record {
              ordered = v.ordered;
              written = v.written;
              placed = a;
              counted = v.counted;
            };
            same = b ∙ before;
            segments = refl;
            is_open = c;
          })
    ]
