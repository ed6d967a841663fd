-- ===== src/Engine/Workers/Budget.antt =====
-- The total of allocateTransformWorkers (internal/engine/workers.go).
use eventr.Common.{String, List, [], ◌∷◌, ℕ, suc, ◌+◌, ◌≤◌, ◌%◌, arith, length}
use eventr.Common.Int.{ℤ}
use eventr.Common.Dict.{Dict, insert}
use eventr.Engine.Workers.{
  Transform, at_least_one, limit, request_each, total_requested, share, assign_each, base_share,
  distribute, allocate_transform_workers,
}

-- The goroutines that an allocation starts.
abbrev pub total : Dict ℕ → ℕ
total [] = 0
total ((k, w) ∷ out) = w + total out

total-insert : (k : String) (w : ℕ) (out : Dict ℕ) → total (insert k w out) ≤ total out + w
unfolding insert
total-insert k w [] = omega arith
total-insert k w ((j, v) ∷ out) = ground (arith, total-insert k w out)

request_each-total :
    (requested : Dict ℕ) (ts : List Transform)
    → total (request_each requested ts) ≤ total requested + total_requested ts
unfolding request_each total_requested
request_each-total requested [] = omega arith
request_each-total requested (n ∷ rest) = omega (
  arith,
  total-insert n.id (at_least_one n.workers) requested,
  request_each-total (insert n.id (at_least_one n.workers) requested) rest,
)

-- What is assigned never passes the limit, so that `max - assigned` is the difference in Go too.
pub share_within :
    (base extra max i assigned : ℕ)
    → assigned ≤ max
    → assigned + share base extra max i assigned ≤ max
unfolding share
share_within base extra max i assigned h = ground arith

assign_each-total :
    (base extra max i assigned : ℕ) (out : Dict ℕ) (ts : List Transform)
    → assigned ≤ max
    → total out ≤ assigned
    → total (assign_each base extra max i assigned out ts) ≤ max
unfolding assign_each
assign_each-total base extra max i assigned out [] h k = omega arith
assign_each-total base extra max i assigned out (n ∷ rest) h k =
    let w = share base extra max i assigned in
    assign_each-total base extra max (suc i) (assigned + w) (insert n.id w out) rest
      (share_within base extra max i assigned h) (omega (arith, total-insert n.id w out))

-- The transform goroutines of a pipeline are never more than max_workers (16 where max_workers is
-- not positive).
pub allocate_transform_workers-le :
    (ts : List Transform) (max_workers : ℤ)
    → total (allocate_transform_workers ts max_workers) ≤ limit max_workers
unfolding allocate_transform_workers distribute
allocate_transform_workers-le [] max_workers = omega arith
allocate_transform_workers-le (n ∷ rest) max_workers =
    let ts = n ∷ rest in
    let max = limit max_workers in
    ground (
      arith,
      request_each-total [] ts,
      assign_each-total (base_share max (length ts)) (max % length ts) max 0 0 [] ts,
    )
