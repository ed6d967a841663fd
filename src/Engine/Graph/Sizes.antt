-- ===== src/Engine/Graph/Sizes.antt =====
-- The sizes of the channels that buildRuntimeGraph (internal/engine/graph.go) makes.
use mathlib.Core.List.{Memᴰ}
use eventr.Common.{ℕ, ◌≤◌, if_elim, false, String, List, [], ◌∷◌, if◌then◌else◌, ◌≡◌, refl, arith}
use eventr.Common.Int.{ℤ, pos, negsuc, ltb_ℤ}
use eventr.Common.{zero, suc}
use eventr.Common.Dict.{Dict, lookup, insert, get_or, lookup-insert}
use eventr.Topology.Ir.{StageIr, EdgeIr, TopologyIr}
use eventr.Topology.Defaults.{buffer_size}
use eventr.Engine.Graph.{Platform, is_out_of_range, inbound_sizes, zero_or}

-- No channel is asked for with a size that is out of range.
pub record IsSized {κ} {E : Type κ} (platform : Platform E) (ir : TopologyIr) : Type 0 where
  pub workers :
      (s : StageIr) → Memᴰ s ir.stages → is_out_of_range platform.max_slices s.workers ≡ false
  pub buffers :
      (e : EdgeIr) → Memᴰ e ir.edges → is_out_of_range platform.max_pointers (buffer_size e) ≡ false

-- The defaults, 64 messages and one worker, are in range.
pub record HasRoom {κ} {E : Type κ} (platform : Platform E) : Type 0 where
  pub pointers : 64 ≤ platform.max_pointers
  pub slices : 1 ≤ platform.max_slices

pub in_range : (max n : ℕ) → n ≤ max → is_out_of_range max (pos n) ≡ false
in_range max n h = ground arith

larger_in_range :
    (max : ℕ) (sizes : Dict ℤ) (e : EdgeIr)
    → is_out_of_range max (buffer_size e) ≡ false
    → ((id : String) → is_out_of_range max (get_or id (pos 0) sizes) ≡ false)
    → (id : String)
    → is_out_of_range max (
        get_or id (pos 0) (
          if ltb_ℤ (get_or e.to (pos 0) sizes) (buffer_size e)
          then insert e.to (buffer_size e) sizes
          else sizes))
      ≡ false
larger_in_range max sizes e he hs id =
    let l = lookup-insert id e.to (buffer_size e) sizes in
    let p = hs id in
    if_elim (λ m. is_out_of_range max (get_or id (pos 0) m) ≡ false)
      (ltb_ℤ (get_or e.to (pos 0) sizes) (buffer_size e)) _ _ (λ t. ground arith) (λ f. p)

pub inbound_sizes_in_range :
    (max : ℕ) (edges : List EdgeIr) (sizes : Dict ℤ)
    → ((e : EdgeIr) → Memᴰ e edges → is_out_of_range max (buffer_size e) ≡ false)
    → ((id : String) → is_out_of_range max (get_or id (pos 0) sizes) ≡ false)
    → (id : String) → is_out_of_range max (get_or id (pos 0) (inbound_sizes edges sizes)) ≡ false
unfolding inbound_sizes
inbound_sizes_in_range max [] sizes he hs id = hs id
inbound_sizes_in_range max (e ∷ edges) sizes he hs id =
    inbound_sizes_in_range max edges _ (λ f l. he f (Memᴰ.tail l))
      (larger_in_range max sizes e (he e (Memᴰ.head refl)) hs) id

pub zero_or_in_range :
    (max : ℕ) (d n : ℤ)
    → is_out_of_range max d ≡ false
    → is_out_of_range max n ≡ false
    → is_out_of_range max (zero_or d n) ≡ false
zero_or_in_range max d (pos zero) hd hn = hd
zero_or_in_range max d (pos (suc n)) hd hn = hn
zero_or_in_range max d (negsuc n) hd hn = cc

pub no_sizes : (max : ℕ) (id : String) → is_out_of_range max (get_or id (pos 0) []) ≡ false
unfolding lookup
no_sizes max id = in_range max 0 (omega arith)
