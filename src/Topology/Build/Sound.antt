-- ===== src/Topology/Build/Sound.antt =====
-- What FromConfig of internal/topology/build.go returns is well formed and built from the configuration.
use eventr.Common.{
  subst, All, Bool, true, false, Option, some, ◌↔◌, String, List, [], ◌∷◌, none, ◌≡◌, refl, arith,
  ap, map, ◌∙◌, sym, Bool-cases, inl, inr, Option-cases,
}
use eventr.Common.Dict.{Dict}
use eventr.Config.Types.{StageConfig, EdgeConfig, EdgeBufferConfig, PipelineConfig}
use eventr.Config.Edges
use eventr.Config.Edges.{Normalized, is_required}
use eventr.Config.Normalize.{Build, build_topology_ir}
use eventr.Config.Defaults.{apply_engine_defaults, apply_observability_defaults, is_known_kind}
use eventr.Topology.Ir.{StageIr, CodecIr, EdgeIr, TopologyIr}
use eventr.Topology.Validate.{validate}
use eventr.Topology.Validate.Sound.{IsValid, validate_iff}
use eventr.Topology.Build.Codecs.{Added, add_codecs-Added}
use eventr.Topology.Build.{
  no_buffer, buffer_or_empty, Result, edge_of, ok, err, add_codecs, stage_of, build_stages, ir_of,
  validated, from_config, cons_stage, with_stages, with_codecs, after_build,
}

cons_stage-ok :
    (s : StageIr) (r : Result (List StageIr)) (built : List StageIr)
    → cons_stage s r ≡ ok built
    → (rest : List StageIr) × (r ≡ ok rest) × (built ≡ s ∷ rest)
cons_stage-ok s (ok rest) built h = (rest, refl, cc)
cons_stage-ok s (err x) built h = cc

build_stages-map :
    (stages : List StageConfig) (built : List StageIr)
    → build_stages stages ≡ ok built
    → (built ≡ map stage_of stages) × All (λ st. is_known_kind st ≡ true) stages
unfolding build_stages
build_stages-map [] built h = (cc, tt)
build_stages-map (st ∷ stages) built h = elim (Bool-cases (is_known_kind st)) [
  | inr e ↦ absurd (ground arith)
  | inl e ↦
      let (rest, r, b) = cons_stage-ok (stage_of st) (build_stages stages) built (ground arith) in
      let (same, known) = build_stages-map stages rest r in
      (b ∙ ap (stage_of st ∷◌) same, (e, known))
]

-- Two lists are of one length and related at each place.
abbrev pub Each {ℓ κ} : {A : Type ℓ} {B : Type κ} → (A → B → Type 0) → List A → List B → Type 0
Each R [] [] = Unit
Each R (x ∷ xs) (y ∷ ys) = R x y × Each R xs ys
Each R [] (y ∷ ys) = ⊥
Each R (x ∷ xs) [] = ⊥

Each-map {ℓ κ} :
    {A : Type ℓ} {B : Type κ} (R : A → B → Type 0) (f : A → B) (xs : List A)
    → ((x : A) → R x (f x))
    → Each R xs (map f xs)
Each-map R f [] h = tt
Each-map R f (x ∷ xs) h = (h x, Each-map R f xs h)

pub record SameStage (st : StageConfig) (s : StageIr) : Type 0 where
  pub id : s.id ≡ st.id
  pub kind : s.kind ≡ st.kind
  pub type : s.type ≡ st.type
  pub workers : s.workers ≡ st.workers
  pub predicate : s.predicate ≡ st.predicate
  pub error_mode : s.error_mode ≡ st.error_mode
  pub decoder : s.decoder ≡ st.decoder
  pub encoder : s.encoder ≡ st.encoder
  pub batch : s.batch ≡ st.batch
  pub ordering : s.ordering ≡ st.ordering
  pub max_in_flight : s.max_in_flight ≡ st.max_in_flight
  pub config : s.config ≡ st.config

-- An edge without a buffer has the empty one, and an edge is not required only where it says so.
pub record SameEdge (e : EdgeConfig) (x : EdgeIr) : Type 0 where
  pub from : x.from ≡ e.from
  pub to : x.to ≡ e.to
  pub condition : x.condition ≡ e.condition
  pub route : x.route ≡ e.route
  pub delivery : x.delivery ≡ e.delivery
  pub buffer : (c : EdgeBufferConfig) → e.buffer ≡ some c → x.buffer ≡ c
  pub without_buffer : e.buffer ≡ none → x.buffer ≡ no_buffer
  pub required : (x.required ≡ false) ↔ (e.required ≡ some false)

SameStage-stage_of : (st : StageConfig) → SameStage st (stage_of st)
SameStage-stage_of st = record {
  id = refl;
  kind = refl;
  type = refl;
  workers = refl;
  predicate = refl;
  error_mode = refl;
  decoder = refl;
  encoder = refl;
  batch = refl;
  ordering = refl;
  max_in_flight = refl;
  config = refl;
}

SameEdge-edge_of : (e : EdgeConfig) → SameEdge e (edge_of e)
SameEdge-edge_of e = record {
  from = refl;
  to = refl;
  condition = refl;
  route = refl;
  delivery = refl;
  buffer = λ c h. ap buffer_or_empty h;
  without_buffer = λ h. ap buffer_or_empty h;
  required = (λ h. only_said e.required h, λ h. ap is_required h);
}
  where
    only_said : (o : Option Bool) → is_required o ≡ false → o ≡ some false
    only_said none h = cc
    only_said (some b) h = ap some h

-- What FromConfig keeps of the configuration in the topology that it returns.
pub record Faithful (b : Build) (ir : TopologyIr) : Type 0 where
  pub name : ir.name ≡ b.name
  pub engine : ir.engine ≡ apply_engine_defaults b.engine
  pub observability : ir.observability ≡ apply_observability_defaults b.observability
  pub edge_defaults : ir.edge_defaults ≡ b.edge_defaults
  pub dlq : ir.dlq ≡ b.dlq
  pub deprecation_warnings : ir.deprecation_warnings ≡ b.deprecation_warnings
  pub stages : Each SameStage b.stages ir.stages
  pub edges : Each SameEdge b.edges ir.edges
  pub known : All (λ st. is_known_kind st ≡ true) b.stages
  pub codecs : Added [] b.codecs ir.codecs

validated-ok : (ir out : TopologyIr) → validated ir ≡ ok out → (out ≡ ir) × (validate ir ≡ none)
unfolding validated
validated-ok ir out h = elim (Option-cases (validate ir)) [
  | inl e ↦ (ground arith, e)
  | inr (x, e) ↦ absurd (ground arith)
]

with_stages-ok :
    (b : Build) (codecs : Dict CodecIr) (r : Result (List StageIr)) (out : TopologyIr)
    → with_stages b codecs r ≡ ok out
    → (stages : List StageIr) × (r ≡ ok stages)
      × (out ≡ ir_of b codecs stages)
      × (validate (ir_of b codecs stages) ≡ none)
with_stages-ok b codecs (err x) out h = cc
with_stages-ok b codecs (ok stages) out h =
    let (same, valid) = validated-ok (ir_of b codecs stages) out h in (stages, refl, same, valid)

with_codecs-ok :
    (b : Build) (r : Result (Dict CodecIr)) (out : TopologyIr)
    → add_codecs [] b.codecs ≡ r
    → with_codecs b r ≡ ok out
    → Faithful b out × IsValid out
with_codecs-ok b (err x) out e h = cc
with_codecs-ok b (ok codecs) out e h =
    let (stages, built, same, valid) = with_stages-ok b codecs (build_stages b.stages) out h in
    let (mapped, known) = build_stages-map b.stages stages built in
    subst (λ ir. Faithful b ir × IsValid ir) (sym same)
      (
        record {
          name = refl;
          engine = refl;
          observability = refl;
          edge_defaults = refl;
          dlq = refl;
          deprecation_warnings = refl;
          stages =
              subst (Each SameStage b.stages) (sym mapped)
                (Each-map SameStage stage_of b.stages SameStage-stage_of);
          edges = Each-map SameEdge edge_of b.edges SameEdge-edge_of;
          known = known;
          codecs = add_codecs-Added [] b.codecs codecs e;
        },
        (validate_iff (ir_of b codecs stages)).0 valid,
      )

after_build-ok :
    (r : Normalized Build) (out : TopologyIr)
    → after_build r ≡ ok out
    → (b : Build) × (r ≡ Edges.ok b) × Faithful b out × IsValid out
after_build-ok (Edges.err x) out h = cc
after_build-ok (Edges.ok b) out h =
    let (faithful, valid) = with_codecs-ok b (add_codecs [] b.codecs) out refl h in
    (b, refl, faithful, valid)

-- A topology that FromConfig returns is well formed and comes from a configuration that
-- BuildTopologyIR accepts. It has the name and the settings of the build, with their defaults, and
-- its stages and edges in their order with every field, an edge being not required only where it
-- says so; each stage of the build has a known kind; the codecs of the build have names, no two
-- alike, and the table has each of them under its name, and nothing else.
pub from_config-ok :
    (quote : String → String) (cfg : PipelineConfig) (ir : TopologyIr)
    → from_config quote cfg ≡ ok ir
    → (b : Build) × (build_topology_ir quote cfg ≡ Edges.ok b) × Faithful b ir × IsValid ir
unfolding from_config
from_config-ok quote cfg ir h = after_build-ok (build_topology_ir quote cfg) ir h
