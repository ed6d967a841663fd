-- ===== src/Engine/Workers/Shares.antt =====
-- How allocateTransformWorkers (internal/engine/workers.go) spreads the limit over the transforms.
use eventr.Common.{
  String, List, [], ◌∷◌, ◌++◌, ℕ, suc, ◌+◌, ◌*◌, ◌/◌, ◌%◌, ◌≤◌, ◌<◌, ◌≡◌, ◌≢◌, refl, arith,
  if◌then◌else◌, ltb, length, some, min, All, length-append,
}
use native.Mathlib.Nat.{div-add-mod, le-div_iff_mul-le}
use eventr.Common.Int.{ℤ}
use eventr.Common.Dict.{Dict, insert, lookup, lookup-insert}
use eventr.Engine.Workers.{
  Transform, limit, total_requested, share, assign_each, base_share, distribute,
  allocate_transform_workers,
}

div_pos : (a b : ℕ) → 0 < b → b ≤ a → 0 < a / b
div_pos a b h k = omega (arith, (le-div_iff_mul-le {k = b} {x = 1} {y = a} h).1 (omega arith))

-- No later transform has this id.
abbrev pub Fresh : String → List Transform → Type 0
Fresh id = All (λ (t : Transform). id ≢ t.id)

pub assign_each-other :
    (base extra max i assigned : ℕ) (out : Dict ℕ) (id : String) (ts : List Transform)
    → Fresh id ts
    → lookup id (assign_each base extra max i assigned out ts) ≡ lookup id out
unfolding assign_each
assign_each-other base extra max i assigned out id [] h = refl
assign_each-other base extra max i assigned out id (n ∷ rest) (ne, h) =
    let w = share base extra max i assigned in
    ground (
      arith,
      assign_each-other base extra max (suc i) (assigned + w) (insert n.id w out) id rest h,
      lookup-insert id n.id w out,
    )

-- The share of transform i where the limit covers every transform.
abbrev pub fair_share : (max count i : ℕ) → ℕ
fair_share max count i = if ltb i (max % count) then suc (max / count) else max / count

-- What the first i transforms have got.
abbrev given : (base extra i : ℕ) → ℕ
given base extra i = i * base + min i extra

share-fair :
    (base extra max i count : ℕ)
    → count * base + extra ≡ max
    → 0 < base
    → i < count
    → share base extra max i (given base extra i) ≡ (if ltb i extra then suc base else base)
unfolding share
share-fair base extra max i count e p h =
    let more : suc i * base ≤ count * base = grind arith in ground arith

share-given :
    (base extra max i count assigned : ℕ)
    → count * base + extra ≡ max
    → 0 < base
    → i < count
    → assigned ≡ given base extra i
    → assigned + share base extra max i assigned ≡ given base extra (suc i)
share-given base extra max i count assigned e p h g =
    rw g (ground (arith, share-fair base extra max i count e p h))

pub allocate-eq-distribute :
    (ts : List Transform) (max_workers : ℤ)
    → limit max_workers < total_requested ts
    → allocate_transform_workers ts max_workers ≡ distribute (limit max_workers) ts
unfolding allocate_transform_workers total_requested
allocate-eq-distribute [] max_workers over = absurd (omega arith)
allocate-eq-distribute (t ∷ ts) max_workers over = ground arith

module _ (n : Transform) (post : List Transform) (fresh : Fresh n.id post) where
  assign_each-fair :
      (base extra max i count assigned : ℕ) (out : Dict ℕ) (pre : List Transform)
      → count * base + extra ≡ max
      → 0 < base
      → i + length pre < count
      → assigned ≡ given base extra i
      → lookup n.id (assign_each base extra max i assigned out (pre ++ n ∷ post))
        ≡ some (if ltb (i + length pre) extra then suc base else base)
  unfolding assign_each
  assign_each-fair base extra max i count assigned out [] e p h g =
      let w = share base extra max i assigned in
      ground (
        arith,
        assign_each-other base extra max (suc i) (assigned + w) (insert n.id w out) n.id post fresh,
        lookup-insert n.id n.id w out,
        share-fair base extra max i count e p,
      )
  assign_each-fair base extra max i count assigned out (t ∷ pre) e p h g =
      let w = share base extra max i assigned in
      ground (
        arith,
        assign_each-fair base extra max (suc i) count (assigned + w) (insert t.id w out) pre e p
            (omega arith) (share-given base extra max i count assigned e p (omega arith) g),
      )

  -- Where the requests pass the limit and the limit covers the transforms, transform i of n (its id
  -- not declared again after it) gets limit / n workers, and one more if i < limit % n. That is at
  -- least one.
  pub allocate_transform_workers-fair :
      (pre : List Transform) (max_workers : ℤ)
      → limit max_workers < total_requested (pre ++ n ∷ post)
      → length (pre ++ n ∷ post) ≤ limit max_workers
      → let share = fair_share (limit max_workers) (length (pre ++ n ∷ post)) (length pre) in
        (lookup n.id (allocate_transform_workers (pre ++ n ∷ post) max_workers) ≡ some share)
        × (0 < share)
  unfolding distribute base_share
  allocate_transform_workers-fair pre max_workers over fits =
      let ts = pre ++ n ∷ post in
      let max = limit max_workers in
      let count = length ts in
      let size = length-append pre (n ∷ post) in
      let some_base : 0 < max / count = div_pos max count (omega arith) fits in
      let whole : count * (max / count) + max % count ≡ max =
        omega (arith, div-add-mod max count) in
      (
        rw (allocate-eq-distribute ts max_workers over) (
            ground (
              arith,
              assign_each-fair (max / count) (max % count) max 0 count 0 [] pre whole some_base
                  (omega arith) (omega arith),
            )),
        ground arith,
      )
