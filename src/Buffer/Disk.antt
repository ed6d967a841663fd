-- ===== src/Buffer/Disk.antt =====
-- DiskWAL of internal/buffer/disk.go: messages in numbered segments, appended at the last one and
-- read from the first one on, which is removed once it is read. A segment file is the list of its
-- records (`Wal` has the bytes), a file offset the number of records before it, and the operations of
-- the file system succeed. Segment `seg-%06d.wal` is its number; sort.Strings orders the names by
-- number as long as they have six digits, that is below a million.
pub mod Unread
pub mod Snoc
pub mod LastFile
pub mod Writes
pub mod Opened
pub mod Ends
pub mod Reads
use eventr.Common.{
  Bool, true, false, List, [], ◌∷◌, ◌++◌, ℕ, zero, suc, ◌+◌, ◌-◌, Option, none, some, if◌then◌else◌,
  ltb, leb, eqb, length, get_elem?,
}

pub record Segment {ℓ} (M : Type ℓ) : Type ℓ where
  pub number : ℕ
  pub records : List M

-- The file that is written, with its size: currentSegment, currentFile and currentSize.
pub record Writer : Type 0 where
  pub segment : ℕ
  pub size : ℕ

-- A place in a segment: readSegment with readOffset, or what consumer.offset holds.
pub record Place : Type 0 where
  pub segment : ℕ
  pub offset : ℕ

-- `read` is none while readFile is nil, `saved` none while the saved segment is "".
pub record Disk {ℓ} (M : Type ℓ) : Type ℓ where
  pub segments : List (Segment M)
  pub writer : Option Writer
  pub total : ℕ
  pub read : Option Place
  pub saved : Option Place

pub record Limits : Type 0 where
  pub segment_size : ℕ
  pub max_size : ℕ

module _ {ℓ} {M : Type ℓ} (size : M → ℕ) where
  -- The bytes of a file.
  abbrev pub file_size : List M → ℕ
  file_size [] = 0
  file_size (m ∷ ms) = size m + file_size ms

  abbrev pub total_size : List (Segment M) → ℕ
  total_size [] = 0
  total_size (s ∷ segs) = file_size s.records + total_size segs

  -- nextSegmentName
  unfoldable pub next_number : List (Segment M) → ℕ
  next_number [] = 1
  next_number (s ∷ []) = suc s.number
  next_number (s ∷ t ∷ segs) = next_number (t ∷ segs)

  -- The write at the end of the file of a segment.
  unfoldable pub append_to : ℕ → M → List (Segment M) → List (Segment M)
  append_to n m [] = []
  append_to n m (s ∷ segs) =
      let rest = append_to n m segs in
      if eqb s.number n then record s { records = s.records ++ m ∷ [] } ∷ segs else s ∷ rest

  unfoldable pub new_segment : Disk M → Disk M
  unfolding next_number
  new_segment d =
      let n = next_number d.segments in
      let empty : Segment M = record { number = n; records = [] } in
      record d {
        segments = d.segments ++ empty ∷ [];
        writer = some (record { segment = n; size = 0 });
      }

  -- ensureWriter: a new segment where none is open or the open one has reached the segment size.
  unfoldable pub ensure_writer : Limits → Disk M → Disk M
  unfolding new_segment
  ensure_writer limits d = elim d.writer [
    | none ↦ new_segment d
    | some w ↦ if ltb w.size limits.segment_size then d else new_segment d
  ]

  unfoldable pub write : M → Disk M → Disk M
  unfolding append_to
  write m d = elim d.writer [
    | none ↦ d
    | some w ↦ record d {
      segments = append_to w.segment m d.segments;
      writer = some (record w { size = w.size + size m });
      total = d.total + size m;
    }
  ]

  -- Append: none is the error "disk buffer full".
  unfoldable pub append : Limits → M → Disk M → Option (Disk M)
  unfolding ensure_writer write
  append limits m d =
      if leb limits.max_size d.total then none else some (write m (ensure_writer limits d))

-- `w.readSegment == w.currentSegment`
abbrev pub is_written : Place → Option Writer → Bool
is_written p none = false
is_written p (some w) = eqb p.segment w.segment

module _ {ℓ} {M : Type ℓ} where
  -- The records of a segment by its number.
  unfoldable pub records_of : ℕ → List (Segment M) → Option (List M)
  records_of n [] = none
  records_of n (s ∷ segs) =
      let rest = records_of n segs in if eqb s.number n then some s.records else rest

  unfoldable pub remove : ℕ → List (Segment M) → List (Segment M)
  remove n [] = []
  remove n (s ∷ segs) = let rest = remove n segs in if eqb s.number n then segs else s ∷ rest

  -- openReadSegmentLocked: the saved place if its segment is there, and else the first segment.
  unfoldable pub start_of : List (Segment M) → Option Place
  start_of [] = none
  start_of (s ∷ segs) = some (record { segment = s.number; offset = 0 })

  unfoldable pub saved_or_start : Option Place → List (Segment M) → Option Place
  unfolding start_of records_of
  saved_or_start none segs = start_of segs
  saved_or_start (some p) segs = elim (records_of p.segment segs) [
    | none ↦ start_of segs
    | some records ↦ some p
  ]

  unfoldable pub open_read : Disk M → Disk M
  unfolding saved_or_start
  open_read d = elim d.read [
    | none ↦ record d { read = saved_or_start d.saved d.segments }
    | some p ↦ d
  ]

  abbrev pub record_at : Place → List (Segment M) → Option M
  record_at p segs = elim (records_of p.segment segs) [
    | none ↦ none
    | some records ↦ get_elem? records p.offset
  ]

  module _ (size : M → ℕ) where
    abbrev pub size_of : Option (List M) → ℕ
    size_of none = 0
    size_of (some records) = file_size size records

    -- The segment is read to its end, and is not the one that is written: it goes.
    unfoldable pub drop_segment : Place → Disk M → Disk M
    unfolding remove
    drop_segment p d = record d {
      segments = remove p.segment d.segments;
      total = d.total - size_of (records_of p.segment d.segments);
      read = none;
      saved = none;
    }

    -- One round of the loop of ReadNext with an open file: a message, nil, or another round.
    unfoldable pub read_at : Place → Disk M → Disk M × Option (Option M)
    unfolding drop_segment open_read records_of
    read_at p d = elim (record_at p d.segments) [
      | some m ↦
          let p' = record p { offset = suc p.offset } in
          (record d { read = some p'; saved = some p' }, some (some m))
      | none ↦
          if is_written p d.writer then (d, some none) else (open_read (drop_segment p d), none)
    ]

    -- The loop of ReadNext, with fuel for the segments that it may drop. The inner none is nil.
    unfoldable pub read_rounds : ℕ → Disk M → Disk M × Option (Option M)
    unfolding read_at
    read_rounds zero d = (d, none)
    read_rounds (suc fuel) d = elim d.read [
      | none ↦ (d, some none)
      | some p ↦
          let (d', r) = read_at p d in
          elim r [ none ↦ read_rounds fuel d' | some answer ↦ (d', some answer) ]
    ]

    unfoldable pub read_next : Disk M → Disk M × Option (Option M)
    unfolding read_rounds
    read_next d = read_rounds (suc (length d.segments)) (open_read d)
