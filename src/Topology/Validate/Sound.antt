-- ===== src/Topology/Validate/Sound.antt =====
-- Validate of internal/topology/validate.go accepts exactly the well-formed topologies.
use mathlib.Core.List.{Memᴰ}
use mathlib.Core.List.Memᴰ
use eventr.Common.{
  false, String, List, [], ◌∷◌, ℕ, none, ◌≡◌, ◌≢◌, refl, ◌↔◌, ◌⊎◌, inl, inr, arith, ap,
}
use eventr.Common.Int.{pos, ltb_ℤ}
use eventr.Topology.Ir.{StageIr, EdgeIr, TopologyIr, kind_source, kind_transform, kind_sink}
use eventr.Topology.Graph.{Walk}
use eventr.Topology.Cycle
use eventr.Topology.Cycle.{detect_cycle}
use eventr.Topology.Cycle.Decides.{detect_cycle_decides}
use eventr.Topology.Path
use eventr.Topology.Path.{has_source_to_sink_path}
use eventr.Topology.Path.Decides.{Connected, has_source_to_sink_path_decides}
use eventr.Topology.Validate.{
  check_each, check_ids, stage_ids, check_edge, check_kind, count_kind, check_incoming,
  check_ordering, check_codecs, check_cycle, check_path, validate,
}
use eventr.Topology.Validate.Stages.{
  then_check_none, check_each-none, Declared, contains-stage_ids, check_edge-none, incoming-eq-zero,
  outgoing-eq-zero, incoming-ne-zero, check_kind-none, check_incoming-none, check_ordering-none,
  Resolves, validate_codec_ref-none,
}
use eventr.Topology.Validate.Ids.{Distinct, check_ids-none}

-- A topology that can run, said without the code.
pub record IsValid (ir : TopologyIr) : Type 0 where
  pub named : (s : StageIr) → Memᴰ s ir.stages → s.id ≢ ""
  pub distinct : Distinct ir.stages
  pub starts : (e : EdgeIr) → Memᴰ e ir.edges → Declared ir.stages e.from
  pub ends : (e : EdgeIr) → Memᴰ e ir.edges → Declared ir.stages e.to
  pub exclusive : (e : EdgeIr) → Memᴰ e ir.edges → (e.route ≡ "") ⊎ (e.condition ≡ "")
  pub kinds :
      (s : StageIr)
      → Memᴰ s ir.stages
      → (s.kind ≡ kind_source) ⊎ (s.kind ≡ kind_sink) ⊎ (s.kind ≡ kind_transform)
  pub sources :
      (s : StageIr)
      → Memᴰ s ir.stages
      → s.kind ≡ kind_source
      → (e : EdgeIr) → Memᴰ e ir.edges
      → e.to ≢ s.id
  pub sinks :
      (s : StageIr)
      → Memᴰ s ir.stages
      → s.kind ≡ kind_sink
      → (e : EdgeIr) → Memᴰ e ir.edges
      → e.from ≢ s.id
  pub fed :
      (s : StageIr)
      → Memᴰ s ir.stages
      → s.kind ≢ kind_source
      → (e : EdgeIr) × Memᴰ e ir.edges × (e.to ≡ s.id)
  pub acyclic : (x : String) → ¬ Walk ir.edges x x
  pub connected : Connected ir.stages ir.edges
  pub ordered :
      (s : StageIr)
      → Memᴰ s ir.stages
      → s.ordering ≡ "ordered"
      → ltb_ℤ (pos 1) s.max_in_flight ≡ false
  pub decoders : (s : StageIr) → Memᴰ s ir.stages → Resolves ir.codecs s.decoder
  pub encoders : (s : StageIr) → Memᴰ s ir.stages → Resolves ir.codecs s.encoder

check_path-none : (o : Path.Outcome) → (check_path o ≡ none) ↔ (o ≡ Path.found)
check_path-none Path.found = (λ h. refl, λ h. refl)
check_path-none Path.missing = (λ h. cc, λ h. cc)
check_path-none Path.out_of_fuel = (λ h. cc, λ h. cc)

check_cycle-none :
    (v : Cycle.Visit) → (check_cycle v ≡ none) ↔ ((m : List (String × ℕ)) × (v ≡ Cycle.clear m))
check_cycle-none (Cycle.clear m) = (λ h. (m, refl), λ h. refl)
check_cycle-none (Cycle.cycle c) = (λ h. cc, λ (m, h). cc)
check_cycle-none Cycle.out_of_fuel = (λ h. cc, λ (m, h). cc)

count_kind_pos :
    (kind : String) (stages : List StageIr) (s : StageIr)
    → Memᴰ s stages
    → s.kind ≡ kind
    → count_kind kind stages ≢ 0
unfolding count_kind
count_kind_pos kind [] s l k = absurd (Memᴰ.not-nil l)
count_kind_pos kind (st ∷ rest) s l k = elim (Memᴰ.cases_cons l) [
  | inl e ↦ let j : s.kind ≡ st.kind = ap (λ t. t.kind) e in ground arith
  | inr later ↦ let ih = count_kind_pos kind rest s later k in ground arith
]

-- The ten checks of `validate`, one fact for each.
record Passes (ir : TopologyIr) : Type 0 where
  ids : check_ids [] ir.stages ≡ none
  edges : check_each (check_edge (stage_ids ir.stages)) ir.edges ≡ none
  kinds : check_each (check_kind ir.edges) ir.stages ≡ none
  has_source : count_kind kind_source ir.stages ≢ 0
  has_sink : count_kind kind_sink ir.stages ≢ 0
  fed : check_each (check_incoming ir.edges) ir.stages ≡ none
  acyclic : check_cycle (detect_cycle ir.stages ir.edges) ≡ none
  path : check_path (has_source_to_sink_path ir.stages ir.edges) ≡ none
  ordering : check_each check_ordering ir.stages ≡ none
  codecs : check_each (check_codecs ir.codecs) ir.stages ≡ none

validate-Passes : (ir : TopologyIr) → (validate ir ≡ none) ↔ Passes ir
unfolding validate
validate-Passes ir = ground arith

Passes-IsValid : (ir : TopologyIr) → Passes ir → IsValid ir
unfolding check_codecs
Passes-IsValid ir p =
    let (new, distinct) = (check_ids-none [] ir.stages).0 p.ids in
    let edges = (check_each-none (check_edge (stage_ids ir.stages)) ir.edges).0 p.edges in
    let kinds = (check_each-none (check_kind ir.edges) ir.stages).0 p.kinds in
    let fed = (check_each-none (check_incoming ir.edges) ir.stages).0 p.fed in
    let codecs = (check_each-none (check_codecs ir.codecs) ir.stages).0 p.codecs in
    let starts = λ (e : EdgeIr) (l : Memᴰ e ir.edges).
      (contains-stage_ids ir.stages e.from).0 ((check_edge-none _ e).0 (edges e l)).0 in
    record {
      named = λ s l. (new s l).0;
      distinct = distinct;
      starts = starts;
      ends = λ e l. (contains-stage_ids ir.stages e.to).0 ((check_edge-none _ e).0 (edges e l)).1;
      exclusive = λ e l. ((check_edge-none _ e).0 (edges e l)).2;
      kinds = λ s l. ((check_kind-none ir.edges s).0 (kinds s l)).2;
      sources = λ s l k.
          (incoming-eq-zero s.id ir.edges).0 (((check_kind-none ir.edges s).0 (kinds s l)).0 k);
      sinks = λ s l k.
          (outgoing-eq-zero s.id ir.edges).0 (((check_kind-none ir.edges s).0 (kinds s l)).1 k);
      fed = λ s l k.
          (incoming-ne-zero s.id ir.edges).0 ((check_incoming-none ir.edges s).0 (fed s l) k);
      acyclic =
          (detect_cycle_decides ir.stages ir.edges starts).1.0 ((check_cycle-none _).0 p.acyclic);
      connected =
          (has_source_to_sink_path_decides ir.stages ir.edges).1.0 ((check_path-none _).0 p.path);
      ordered = λ s l.
          (check_ordering-none s).0 ((check_each-none check_ordering ir.stages).0 p.ordering s l);
      decoders = λ s l.
          (validate_codec_ref-none s.id s.decoder ir.codecs "decoder").0
            ((then_check_none _ _).0 (codecs s l)).0;
      encoders = λ s l.
          (validate_codec_ref-none s.id s.encoder ir.codecs "encoder").0
            ((then_check_none _ _).0 (codecs s l)).1;
    }

IsValid-Passes : (ir : TopologyIr) → IsValid ir → Passes ir
unfolding check_codecs
IsValid-Passes ir v =
    let (a, b, la, ka, lb, kb, r) = v.connected in
    record {
      ids = (check_ids-none [] ir.stages).1 ((λ s l. (v.named s l, refl)), v.distinct);
      edges = (check_each-none _ ir.edges).1 (λ e l. (check_edge-none _ e).1 (
        (contains-stage_ids ir.stages e.from).1 (v.starts e l),
        (contains-stage_ids ir.stages e.to).1 (v.ends e l),
        v.exclusive e l,
      ));
      kinds = (check_each-none _ ir.stages).1 (λ s l. (check_kind-none ir.edges s).1 (
        λ k. (incoming-eq-zero s.id ir.edges).1 (v.sources s l k),
        λ k. (outgoing-eq-zero s.id ir.edges).1 (v.sinks s l k),
        v.kinds s l,
      ));
      has_source = count_kind_pos kind_source ir.stages a la ka;
      has_sink = count_kind_pos kind_sink ir.stages b lb kb;
      fed = (check_each-none _ ir.stages).1 (λ s l.
          (check_incoming-none ir.edges s).1
            (λ k. (incoming-ne-zero s.id ir.edges).1 (v.fed s l k)));
      acyclic =
          (check_cycle-none _).1 ((detect_cycle_decides ir.stages ir.edges v.starts).1.1 v.acyclic);
      path =
          (check_path-none _).1
            ((has_source_to_sink_path_decides ir.stages ir.edges).1.1 v.connected);
      ordering = (check_each-none _ ir.stages).1 (λ s l. (check_ordering-none s).1 (v.ordered s l));
      codecs = (check_each-none _ ir.stages).1 (λ s l. (then_check_none _ _).1 (
        (validate_codec_ref-none s.id s.decoder ir.codecs "decoder").1 (v.decoders s l),
        (validate_codec_ref-none s.id s.encoder ir.codecs "encoder").1 (v.encoders s l),
      ));
    }

-- Validate returns nil exactly for the topologies that are well formed: ids present and distinct,
-- edges between declared stages with a route or a condition but not both, known kinds, no edge into
-- a source or out of a sink, an edge into every other stage, no cycle, a walk from a source to a
-- sink, at most one batch in flight at an ordered sink, and codec references that resolve.
pub validate_iff : (ir : TopologyIr) → (validate ir ≡ none) ↔ IsValid ir
validate_iff ir = (
  λ h. Passes-IsValid ir ((validate-Passes ir).0 h),
  λ v. (validate-Passes ir).1 (IsValid-Passes ir v),
)
