-- ===== src/Engine/Graph.antt =====
-- buildRuntimeGraph and allEdgeInbounds of internal/engine/graph.go, with NewEdgeInbound of
-- internal/buffer/edge.go as far as it may fail. `compile` stands for the expression library. A nil node that is written to, and a channel
-- whose size is negative or too large for the runtime, panic.
pub mod Growth
pub mod Sizes
pub mod Total
use eventr.Common.{
  Bool, true, false, String, ◌<>◌, List, [], ◌∷◌, ◌++◌, map, Option, none, some, if◌then◌else◌,
  ◌&&◌, not, ℕ, ltb, ◌⊎◌, inl, inr,
}
use eventr.Common.Int.{ℤ, pos, negsuc, ltb_ℤ, is_zero}
use eventr.Common.Text.{◌==◌}
use eventr.Common.Dict.{Dict, lookup, insert, get_or}
use eventr.Common.Outcome.{Outcome, ok, err, panic, ◌>>=◌, or_panic, panic_if}
use eventr.Config.Types.{EdgeBufferConfig}
use eventr.Topology.Ir.{StageIr, EdgeIr, TopologyIr, kind_transform}
use eventr.Eql.Compile.{Program, compile_filter, compile_condition}
use eventr.Topology.Defaults.{default_buffer, buffer_size}

-- DiskOptions, with the interval in nanoseconds.
pub record DiskOptions : Type 0 where
  pub dir : String
  pub max_size : ℤ
  pub sync_interval : ℤ

-- filepath.Join, time.ParseDuration (none is its error), the error of buffer.NewDiskWAL, and the
-- largest sizes of a channel of pointers and of one of slices that the Go runtime makes.
pub record Platform {ℓ} (E : Type ℓ) : Type ℓ where
  pub join : List String → String
  pub parse_duration : String → Option ℤ
  pub open_disk : DiskOptions → Option E
  pub max_pointers : ℕ
  pub max_slices : ℕ

-- The fields of an EdgeInbound that do not change.
pub record EdgeInbound : Type 0 where
  pub pipeline : String
  pub from : String
  pub to : String
  pub cfg : EdgeBufferConfig

pub record RuntimeNode {ℓ} (Program : Type ℓ) : Type ℓ where
  pub id : String
  pub kind : String
  pub inbound_edges : List EdgeInbound
  pub out_buffer : ℤ
  pub workers : ℤ
  pub conditions : Dict Program
  pub predicate : Option Program

pub record RuntimeGraph {ℓ} (Program : Type ℓ) : Type ℓ where
  pub nodes : Dict (RuntimeNode Program)
  pub outgoing : Dict (List EdgeIr)
  pub edge_inbounds : Dict EdgeInbound

pub data GraphError {ℓ} (E : Type ℓ) : Type ℓ where
  bad_predicate : String → E → GraphError E
  bad_buffer : EdgeIr → E → GraphError E
  bad_condition : EdgeIr → E → GraphError E

-- edgeKey
abbrev pub edge_key : String → String → String
edge_key from to = from <> "->" <> to

-- Whether make(chan T, n) panics, where the runtime makes channels of up to `max` elements.
abbrev pub is_out_of_range : ℕ → ℤ → Bool
is_out_of_range max (pos n) = ltb max n
is_out_of_range max (negsuc n) = true

-- The first loop: inboundBuf.
unfoldable pub inbound_sizes : List EdgeIr → Dict ℤ → Dict ℤ
inbound_sizes [] sizes = sizes
inbound_sizes (e ∷ edges) sizes = inbound_sizes edges (
    if ltb_ℤ (get_or e.to (pos 0) sizes) (buffer_size e)
    then insert e.to (buffer_size e) sizes
    else sizes)

abbrev pub zero_or : ℤ → ℤ → ℤ
zero_or d n = if is_zero n then d else n

-- g.nodes[n.id] = n
abbrev pub put_node {ℓ} :
    {Program : Type ℓ} → RuntimeNode Program → RuntimeGraph Program → RuntimeGraph Program
put_node n g = record g { nodes = insert n.id n g.nodes }

-- The error of a call, wrapped.
abbrev pub wrap {ℓ κ} :
    {A : Type ℓ} {E : Type κ} → (E → GraphError E) → E ⊎ A → Outcome (GraphError E) A
wrap f (inr a) = ok a
wrap f (inl e) = err (f e)

-- defaultDiskRoot and DefaultSyncInterval
abbrev pub default_root : String
default_root = "buffers"

abbrev pub default_sync_interval : ℤ
default_sync_interval = pos 500_000_000

-- The options that NewEdgeInbound opens the disk with.
unfoldable pub disk_options {κ} : {E : Type κ} → Platform E → EdgeInbound → DiskOptions
disk_options platform eb =
    let own = eb.from <> "__" <> eb.to in
    record {
      dir =
          if eb.cfg.disk_path == ""
          then platform.join (default_root ∷ eb.pipeline ∷ own ∷ [])
          else platform.join (eb.cfg.disk_path ∷ eb.pipeline ∷ own ∷ []);
      max_size = eb.cfg.disk_max_size;
      sync_interval =
          if eb.cfg.disk_sync_interval == ""
          then default_sync_interval
          else elim (platform.parse_duration eb.cfg.disk_sync_interval) [
            | none ↦ default_sync_interval
            | some d ↦ d
          ];
    }

abbrev pub opened {κ} :
    {E : Type κ} → EdgeIr → EdgeInbound → Option E → Outcome (GraphError E) EdgeInbound
opened e eb none = ok eb
opened e eb (some x) = err (bad_buffer e x)

module _ {ℓ κ} {Expr : Type ℓ} {E : Type κ} (compile : String → E ⊎ Expr)
    (platform : Platform E) where
  unfoldable pub compile_predicate : StageIr → Outcome (GraphError E) (Option (Program Expr))
  unfolding compile_filter
  compile_predicate st =
      if not (st.predicate == "") && st.kind == kind_transform
      then (do
        program ← wrap (bad_predicate st.id) (compile_filter compile st.predicate)
        ok (some program))
      else ok none

  -- The body of the loop over the stages.
  unfoldable pub add_stage :
      Dict ℤ
      → StageIr
      → RuntimeGraph (Program Expr)
      → Outcome (GraphError E) (RuntimeGraph (Program Expr))
  unfolding compile_predicate
  add_stage sizes st g =
      let buf = zero_or (pos 64) (get_or st.id (pos 0) sizes) in
      let workers = zero_or (pos 1) st.workers in
      panic_if (is_out_of_range platform.max_pointers buf) (
        panic_if (is_out_of_range platform.max_slices workers) (do
          predicate ← compile_predicate st
          ok (
              put_node
                (record {
                  id = st.id;
                  kind = st.kind;
                  inbound_edges = [];
                  out_buffer = buf;
                  workers = workers;
                  conditions = [];
                  predicate = predicate;
                })
                g)))

  unfoldable pub add_stages :
      Dict ℤ
      → List StageIr
      → RuntimeGraph (Program Expr)
      → Outcome (GraphError E) (RuntimeGraph (Program Expr))
  unfolding add_stage
  add_stages sizes [] g = ok g
  add_stages sizes (st ∷ stages) g = do g' ← add_stage sizes st g; add_stages sizes stages g'

  -- NewEdgeInbound: the channels are made, and the disk is opened where the type has one.
  unfoldable pub new_edge_inbound : String → EdgeIr → Outcome (GraphError E) EdgeInbound
  unfolding default_buffer disk_options
  new_edge_inbound name e =
      let cfg = default_buffer e.buffer in
      let eb : EdgeInbound = record { pipeline = name; from = e.from; to = e.to; cfg = cfg } in
      panic_if (is_out_of_range platform.max_pointers cfg.size) (
        if cfg.type == "disk"
        then opened e eb (platform.open_disk (disk_options platform eb))
        else if cfg.type == "overflow"
        then opened e eb (platform.open_disk (disk_options platform eb))
        else ok eb)

  -- The condition of an edge goes to the node that it starts at, under the node that it ends at.
  unfoldable pub add_condition :
      EdgeIr → RuntimeGraph (Program Expr) → Outcome (GraphError E) (RuntimeGraph (Program Expr))
  unfolding compile_condition
  add_condition e g = if e.condition == "" then ok g else (do
    program ← wrap (bad_condition e) (compile_condition compile e.condition)
    node ← or_panic (lookup e.from g.nodes)
    ok (put_node (record node { conditions = insert e.to program node.conditions }) g))

  -- The body of the loop over the edges.
  unfoldable pub add_edge :
      String
      → EdgeIr
      → RuntimeGraph (Program Expr)
      → Outcome (GraphError E) (RuntimeGraph (Program Expr))
  unfolding new_edge_inbound add_condition
  add_edge name e g = do
    eb ← new_edge_inbound name e
    node ← or_panic (lookup e.to g.nodes)
    let g₁ = put_node (record node { inbound_edges = node.inbound_edges ++ eb ∷ [] }) g
    let out = get_or e.from [] g.outgoing ++ e ∷ []
    add_condition e (record g₁ {
      edge_inbounds = insert (edge_key e.from e.to) eb g.edge_inbounds;
      outgoing = insert e.from out g.outgoing;
    })

  unfoldable pub add_edges :
      String
      → List EdgeIr
      → RuntimeGraph (Program Expr)
      → Outcome (GraphError E) (RuntimeGraph (Program Expr))
  unfolding add_edge
  add_edges name [] g = ok g
  add_edges name (e ∷ edges) g = do g' ← add_edge name e g; add_edges name edges g'

  unfoldable pub build_runtime_graph :
      TopologyIr → Outcome (GraphError E) (RuntimeGraph (Program Expr))
  unfolding inbound_sizes add_stages add_edges
  build_runtime_graph ir = do
    g ←
        add_stages (inbound_sizes ir.edges []) ir.stages
          (record { nodes = []; outgoing = []; edge_inbounds = [] })
    add_edges ir.name ir.edges g

-- allEdgeInbounds: the values of the map. A pointer stands in it under one key, that of its ends.
unfoldable pub all_edge_inbounds {ℓ} : {Program : Type ℓ} → RuntimeGraph Program → List EdgeInbound
all_edge_inbounds g = map (λ kv. kv.1) g.edge_inbounds
