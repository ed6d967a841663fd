-- ===== src/Engine/Workers.antt =====
-- allocateTransformWorkers of internal/engine/workers.go.
pub mod Budget
pub mod Shares
pub mod Starved
use eventr.Common.{
  Bool, true, false, ◌&&◌, String, List, [], ◌∷◌, ℕ, zero, suc, ◌+◌, ◌-◌, ◌/◌, ◌%◌, if◌then◌else◌,
  ltb, leb, length,
}
use eventr.Common.Int.{ℤ, pos, negsuc}
use eventr.Common.Dict.{Dict, insert}

-- The two fields of a runtimeNode that the allocation reads.
pub record Transform : Type 0 where
  pub id : String
  pub workers : ℤ

-- `if w < 1 { w = 1 }`
abbrev pub at_least_one : ℤ → ℕ
at_least_one (pos zero) = 1
at_least_one (pos (suc n)) = suc n
at_least_one (negsuc n) = 1

-- `if maxWorkers <= 0 { maxWorkers = 16 }`
abbrev pub limit : ℤ → ℕ
limit (pos zero) = 16
limit (pos (suc n)) = suc n
limit (negsuc n) = 16

-- The loop that fills `requested`.
unfoldable pub request_each : Dict ℕ → List Transform → Dict ℕ
request_each requested [] = requested
request_each requested (n ∷ rest) =
    request_each (insert n.id (at_least_one n.workers) requested) rest

unfoldable pub total_requested : List Transform → ℕ
total_requested [] = 0
total_requested (n ∷ rest) = at_least_one n.workers + total_requested rest

-- The number that transform i gets. `assigned` is what those before it got.
unfoldable pub share : (base extra max i assigned : ℕ) → ℕ
share base extra max i assigned =
    let w = if ltb i extra then suc base else base in
    let w' = if ltb max (assigned + w) then max - assigned else w in
    if ltb w' 1 && ltb assigned max then 1 else w'

-- The loop that fills `out`.
unfoldable pub assign_each : (base extra max i assigned : ℕ) → Dict ℕ → List Transform → Dict ℕ
assign_each base extra max i assigned out [] = out
assign_each base extra max i assigned out (n ∷ rest) =
    let w = share base extra max i assigned in
    assign_each base extra max (suc i) (assigned + w) (insert n.id w out) rest

-- `base := maxWorkers / len(transforms)`, at least 1
unfoldable pub base_share : ℕ → ℕ → ℕ
base_share max count = let base = max / count in if ltb base 1 then 1 else base

unfoldable pub distribute : ℕ → List Transform → Dict ℕ
distribute max transforms =
    let count = length transforms in
    assign_each (base_share max count) (max % count) max 0 0 [] transforms

unfoldable pub allocate_transform_workers : List Transform → ℤ → Dict ℕ
allocate_transform_workers [] max_workers = []
allocate_transform_workers (n ∷ rest) max_workers =
    let transforms = n ∷ rest in
    let max = limit max_workers in
    if leb (total_requested transforms) max
    then request_each [] transforms
    else distribute max transforms
