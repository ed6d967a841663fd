-- ===== src/Engine/Workers/Starved.antt =====
-- allocateTransformWorkers (internal/engine/workers.go) where the limit is below the number of
-- transforms: the remainder goes out twice, as a base share raised to 1 and as an extra worker.
use native.Mathlib.Nat.{mod-eq_of_lt, div-eq_of_lt}
use eventr.Common.{List, [], ◌∷◌, ◌++◌, ℕ, suc, ◌+◌, ◌-◌, ◌*◌, ◌<◌, ◌≡◌, arith, length, some, min}
use eventr.Common.Int.{ℤ}
use eventr.Common.Dict.{Dict, insert, lookup, lookup-insert}
use eventr.Engine.Workers.{
  Transform, limit, total_requested, share, assign_each, base_share, distribute,
  allocate_transform_workers,
}
use eventr.Engine.Workers.Shares.{Fresh, assign_each-other, allocate-eq-distribute}

-- What the first i transforms have got.
abbrev taken : (max i : ℕ) → ℕ
taken max i = min max (2 * i)

share-taken : (max i : ℕ) → 1 < max → share 1 max max i (taken max i) ≡ min 2 (max - 2 * i)
unfolding share
share-taken max i h = ground arith

step-taken :
    (max i assigned : ℕ)
    → 1 < max
    → assigned ≡ taken max i
    → assigned + share 1 max max i assigned ≡ taken max (suc i)
step-taken max i assigned h e = rw e (omega (arith, share-taken max i h))

module _ (n : Transform) (post : List Transform) (fresh : Fresh n.id post) where
  assign_each-starved :
      (max i assigned : ℕ) (out : Dict ℕ) (pre : List Transform)
      → 1 < max
      → assigned ≡ taken max i
      → lookup n.id (assign_each 1 max max i assigned out (pre ++ n ∷ post))
        ≡ some (min 2 (max - 2 * (i + length pre)))
  unfolding assign_each
  assign_each-starved max i assigned out [] h e =
      let w = share 1 max max i assigned in
      ground (
        arith,
        assign_each-other 1 max max (suc i) (assigned + w) (insert n.id w out) n.id post fresh,
        lookup-insert n.id n.id w out,
        share-taken max i h,
      )
  assign_each-starved max i assigned out (t ∷ pre) h e =
      let w = share 1 max max i assigned in
      ground (
        arith,
        assign_each-starved max (suc i) (assigned + w) (insert t.id w out) pre h
            (step-taken max i assigned h e),
      )

  -- Where the requests pass the limit and the limit is at least 2 and below the number of
  -- transforms, the transform at index i (its id not declared again after it) gets min(2, limit -
  -- 2i) workers: the first ones get two each, and from index limit / 2 (rounded up) on they get
  -- none.
  pub allocate_transform_workers-starved :
      (pre : List Transform) (max_workers : ℤ)
      → limit max_workers < total_requested (pre ++ n ∷ post)
      → 1 < limit max_workers
      → limit max_workers < length (pre ++ n ∷ post)
      → lookup n.id (allocate_transform_workers (pre ++ n ∷ post) max_workers)
        ≡ some (min 2 (limit max_workers - 2 * length pre))
  unfolding distribute base_share
  allocate_transform_workers-starved pre max_workers over two few =
      let ts = pre ++ n ∷ post in
      let max = limit max_workers in
      let count = length ts in
      rw (allocate-eq-distribute ts max_workers over, div-eq_of_lt few, mod-eq_of_lt few)
        (ground (arith, assign_each-starved max 0 0 [] pre two (omega arith)))
