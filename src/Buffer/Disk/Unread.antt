-- ===== src/Buffer/Disk/Unread.antt =====
-- The messages that a DiskWAL (internal/buffer/disk.go) still has to give out, and its invariant.
use eventr.Common.{List, [], ◌∷◌, ◌++◌, ℕ, ◌≤◌, ◌<◌, ◌≡◌, Option, none, some, All, length, drop}
use eventr.Buffer.Disk.{Segment, Writer, Place, Disk, total_size}

-- Where the next read starts, if that is not the start of the first segment.
abbrev pub cursor_of : Option Place → Option Place → Option Place
cursor_of none saved = saved
cursor_of (some p) saved = some p

module _ {ℓ} {M : Type ℓ} where
  abbrev pub all_records : List (Segment M) → List M
  all_records [] = []
  all_records (s ∷ segs) = s.records ++ all_records segs

  -- From a place in the first segment on.
  abbrev pub unread_at : Place → List (Segment M) → List M
  unread_at p [] = []
  unread_at p (s ∷ segs) = drop p.offset s.records ++ all_records segs

  abbrev pub unread_from : Option Place → List (Segment M) → List M
  unread_from none segs = all_records segs
  unread_from (some p) segs = unread_at p segs

  -- The abstract queue of a disk buffer.
  abbrev pub unread : Disk M → List M
  unread d = unread_from (cursor_of d.read d.saved) d.segments

  abbrev pub Increasing : List (Segment M) → Type 0
  Increasing [] = Unit
  Increasing (s ∷ segs) = All (λ (t : Segment M). s.number < t.number) segs × Increasing segs

  abbrev pub LastIs : ℕ → List (Segment M) → Type 0
  LastIs n [] = ⊥
  LastIs n (s ∷ []) = s.number ≡ n
  LastIs n (s ∷ t ∷ segs) = LastIs n (t ∷ segs)

  -- The file that is written is the last one.
  abbrev pub Written : Option Writer → List (Segment M) → Type 0
  Written none segs = Unit
  Written (some w) segs = LastIs w.segment segs

  -- The place lies in the first segment.
  abbrev pub AtHead : Place → List (Segment M) → Type 0
  AtHead p [] = ⊥
  AtHead p (s ∷ segs) = (p.segment ≡ s.number) × (p.offset ≤ length s.records)

  abbrev pub Placed : Option Place → List (Segment M) → Type 0
  Placed none segs = Unit
  Placed (some p) segs = AtHead p segs

  pub record Inv (size : M → ℕ) (d : Disk M) : Type 0 where
    pub ordered : Increasing d.segments
    pub written : Written d.writer d.segments
    pub placed : Placed (cursor_of d.read d.saved) d.segments
    pub counted : d.total ≡ total_size size d.segments
