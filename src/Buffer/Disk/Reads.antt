-- ===== src/Buffer/Disk/Reads.antt =====
-- ReadNext of internal/buffer/disk.go gives out what is unread in order, and ends.
use eventr.Common.{
  true, false, List, [], ◌∷◌, ℕ, zero, suc, ◌<◌, ◌≡◌, refl, Option, none, some, length, arith,
  Bool-cases, Option-cases, inl, inr, ap, subst, sym, ◌⊎◌, ◌∙◌,
}
use eventr.Buffer.Disk.{
  Segment, Place, Disk, open_read, record_at, is_written, drop_segment, read_at, read_rounds,
  read_next,
}
use eventr.Buffer.Disk.Unread.{
  all_records, unread_at, cursor_of, unread_from, unread, AtHead, Placed, Inv,
}
use eventr.Buffer.Disk.Opened.{Opens, open_read-Opens}
use eventr.Buffer.Disk.Ends.{
  record_at-unread, record_at-end, record_at-Written, Removed, remove-Removed, drop_segment-Inv,
}

module _ {ℓ} {M : Type ℓ} (size : M → ℕ) where
  -- What a round of ReadNext answers, by what was unread.
  abbrev Answer : Disk M → Disk M → Option (Option M) → Type ℓ
  Answer d d' (some (some m)) = Inv size d' × (unread d ≡ m ∷ unread d')
  Answer d d' (some none) = Inv size d' × (unread d ≡ []) × (unread d' ≡ [])
  Answer d d' none =
      Opens size d' d' × (unread d' ≡ unread d) × (length d'.segments < length d.segments)

  abbrev Round : Disk M → Disk M × Option (Option M) → Type ℓ
  Round d (d', r) = Answer d d' r

  read_at-cases :
      (p : Place) (d : Disk M)
      → ((m : M) × (record_at p d.segments ≡ some m)
          × (let p' = record p { offset = suc p.offset } in
              read_at size p d ≡ (record d { read = some p'; saved = some p' }, some (some m))))
        ⊎ (record_at p d.segments ≡ none)
          × ((is_written p d.writer ≡ true) × (read_at size p d ≡ (d, some none))
              ⊎ (is_written p d.writer ≡ false)
                × (read_at size p d ≡ (open_read (drop_segment size p d), none)))
  unfolding read_at
  read_at-cases p d = elim (Option-cases (record_at p d.segments)) [
    | inl e ↦ inr (
      e,
      elim (Bool-cases (is_written p d.writer)) [
        | inl w ↦ inl (w, ground arith)
        | inr w ↦ inr (w, ground arith)
      ],
    )
    | inr (m, e) ↦ inl (m, e, ground arith)
  ]

  after_drop :
      (p : Place) (d : Disk M)
      → record_at p d.segments ≡ none
      → AtHead p d.segments
      → unread d ≡ unread_at p d.segments
      → Removed size p d.writer d.segments
      → Opens size (drop_segment size p d) (open_read (drop_segment size p d))
      → Round d (open_read (drop_segment size p d), none)
  unfolding drop_segment
  after_drop p d h placed now left o = (
    record { inv = o.inv; same = refl; segments = refl; is_open = o.is_open },
    o.same ∙ sym (now ∙ record_at-end size p d.segments placed h),
    omega (arith, left.fewer, ap length o.segments),
  )

  read_at-Round :
      (p : Place) (d : Disk M) → d.read ≡ some p → Inv size d → Round d (read_at size p d)
  read_at-Round p d e v =
      let placed : AtHead p d.segments =
        subst (λ r. Placed (cursor_of r d.saved) d.segments) e v.placed in
      let now : unread d ≡ unread_at p d.segments =
        subst (λ r. unread d ≡ unread_from (cursor_of r d.saved) d.segments) e refl in
      elim (read_at-cases p d) [
        | inl (m, h, r) ↦
            let (a, b) = record_at-unread size p d.segments m placed h in
            subst (Round d) (sym r) (
              record { ordered = v.ordered; written = v.written; placed = b; counted = v.counted },
              now ∙ a,
            )
        | inr (h, inl (w, r)) ↦
            let gone = record_at-Written size p d.writer d.segments placed v.ordered v.written w in
            let nothing = now ∙ record_at-end size p d.segments placed h ∙ ap all_records gone in
            subst (Round d) (sym r) (v, nothing, nothing)
        | inr (h, inr (w, r)) ↦
            let left = remove-Removed size p d.writer d.segments placed v.ordered v.written w in
            let opened =
              open_read-Opens size (drop_segment size p d) (drop_segment-Inv size p d v left) in
            subst (Round d) (sym r) (after_drop p d h placed now left opened)
      ]

  -- What ReadNext gives: the first unread message, or nil when there is none.
  abbrev pub Given : Disk M → Disk M × Option (Option M) → Type ℓ
  Given d (d', none) = ⊥ × (unread d ≡ [])
  Given d (d', some none) = Inv size d' × (unread d ≡ []) × (unread d' ≡ [])
  Given d (d', some (some m)) = Inv size d' × (unread d ≡ m ∷ unread d')

  Given-along :
      (d₁ d₂ : Disk M) (r : Disk M × Option (Option M))
      → unread d₂ ≡ unread d₁
      → Given d₂ r
      → Given d₁ r
  Given-along d₁ d₂ (d', none) e (a, b) = (a, sym e ∙ b)
  Given-along d₁ d₂ (d', some none) e (v, a, b) = (v, sym e ∙ a, b)
  Given-along d₁ d₂ (d', some (some m)) e (v, a) = (v, sym e ∙ a)

  unread_from-empty :
      (c : Option Place) (segs : List (Segment M)) → segs ≡ [] → unread_from c segs ≡ []
  unread_from-empty none segs e = ap all_records e
  unread_from-empty (some p) segs e = ap (unread_at p) e

  read_rounds-closed :
      (fuel : ℕ) (d : Disk M) → d.read ≡ none → read_rounds size (suc fuel) d ≡ (d, some none)
  unfolding read_rounds
  read_rounds-closed fuel d e = ground arith

  read_rounds-open :
      (fuel : ℕ) (d : Disk M) (p : Place)
      → d.read ≡ some p
      → read_rounds size (suc fuel) d ≡ (
          let (d', r) = read_at size p d in
          elim r [ none ↦ read_rounds size fuel d' | some answer ↦ (d', some answer) ])
  unfolding read_rounds
  read_rounds-open fuel d p e = ground arith

  then_more :
      (fuel : ℕ) (d : Disk M) (r : Disk M × Option (Option M))
      → length d.segments < suc fuel
      → Round d r
      → ((d' : Disk M)
          → length d'.segments < fuel
          → Inv size d'
          → (d'.read ≡ none → d'.segments ≡ [])
          → Given d' (read_rounds size fuel d'))
      → Given d (
          let (d', a) = r in
          elim a [ none ↦ read_rounds size fuel d' | some answer ↦ (d', some answer) ])
  then_more fuel d (d', some (some m)) k h next = h
  then_more fuel d (d', some none) k h next = h
  then_more fuel d (d', none) k (opened, same, fewer) next =
      Given-along d d' (read_rounds size fuel d') same
        (next d' (omega (arith, k, fewer)) opened.inv opened.is_open)

  read_rounds-Given :
      (fuel : ℕ) (d : Disk M)
      → length d.segments < fuel
      → Inv size d
      → (d.read ≡ none → d.segments ≡ [])
      → Given d (read_rounds size fuel d)
  read_rounds-Given zero d k v o = absurd (omega arith)
  read_rounds-Given (suc fuel) d k v o = elim (Option-cases d.read) [
    | inl e ↦
        let nothing = unread_from-empty (cursor_of d.read d.saved) d.segments (o e) in
        subst (Given d) (sym (read_rounds-closed fuel d e)) (v, nothing, nothing)
    | inr (p, e) ↦
        subst (Given d) (sym (read_rounds-open fuel d p e))
          (then_more fuel d (read_at size p d) k (read_at-Round p d e v) (read_rounds-Given fuel))
  ]

  -- From a disk buffer that keeps its invariant, ReadNext ends: it gives the first unread message and
  -- leaves those after it, or, exactly when nothing is unread, nil. The invariant is kept.
  pub read_next-unread : (d : Disk M) → Inv size d → Given d (read_next size d)
  unfolding read_next
  read_next-unread d v =
      let o = open_read-Opens size d v in
      let fuel : length (open_read d).segments < suc (length d.segments) =
        omega (arith, ap length o.segments) in
      Given-along d (open_read d) (read_next size d) o.same
        (read_rounds-Given (suc (length d.segments)) (open_read d) fuel o.inv o.is_open)
