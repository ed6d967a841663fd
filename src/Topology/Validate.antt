-- ===== src/Topology/Validate.antt =====
-- Validate of internal/topology/validate.go. An error is a value that keeps what its message names.
-- Go ranges over the map of stages in an open order; here the loops over it go by declaration, so
-- that only which of several faults is reported may differ.
pub mod Stages
pub mod Ids
pub mod Sound
use eventr.Common.{
  Bool, true, false, not, ◌&&◌, String, List, [], ◌∷◌, ◌++◌, ℕ, zero, suc, ◌+◌, Option, none, some,
  if◌then◌else◌, ltb, eqb, length, ite,
}
use eventr.Common.Int.{ℤ, pos, ltb_ℤ}
use eventr.Common.Text.{contains, ◌==◌, string_dec}
use eventr.Common.Dict.{Dict, has, get_or, insert, lookup}
use eventr.Config.Value.{Fields, nil, field}
use eventr.Config.Types.{CodecRef}
use eventr.Topology.Ir.{
  StageIr, EdgeIr, CodecIr, TopologyIr, kind_source, kind_transform, kind_sink,
}
use eventr.Topology.Cycle
use eventr.Topology.Cycle.{detect_cycle}
use eventr.Topology.Path
use eventr.Topology.Path.{has_source_to_sink_path}

pub data ValidationError : Type 0 where
  missing_id : ValidationError
  duplicate_id : String → ValidationError
  unknown_from : String → ValidationError
  unknown_to : String → ValidationError
  route_and_condition : String → String → ValidationError
  source_has_incoming : String → ValidationError
  sink_has_outgoing : String → ValidationError
  unknown_kind : String → String → ValidationError
  no_source : ValidationError
  no_sink : ValidationError
  no_incoming : String → ValidationError
  cycle_detected : String → ValidationError
  no_path : ValidationError
  ordered_in_flight : String → ValidationError
  codec_not_found : String → String → String → ValidationError
  search_unfinished : ValidationError

-- `if err != nil { return err }`, and what comes after.
infixr 25 ◌then_check◌
abbrev pub ◌then_check◌ : Option ValidationError → Option ValidationError → Option ValidationError
none then_check next = next
some e then_check next = some e

abbrev pub fail_if : Bool → ValidationError → Option ValidationError
fail_if true e = some e
fail_if false e = none

-- A loop that returns the first error of its body.
unfoldable pub check_each {ℓ} :
    {A : Type ℓ} → (A → Option ValidationError) → List A → Option ValidationError
check_each check [] = none
check_each check (x ∷ rest) = check x then_check check_each check rest

-- The first loop: each stage has an id, and no other stage before it has the same. The ids seen so
-- far are the keys of `stageIDs`.
unfoldable pub check_ids : List String → List StageIr → Option ValidationError
check_ids seen [] = none
check_ids seen (st ∷ rest) =
    fail_if (st.id == "") missing_id
    then_check fail_if (contains seen st.id) (duplicate_id st.id)
    then_check check_ids (st.id ∷ seen) rest

unfoldable pub stage_ids : List StageIr → List String
stage_ids [] = []
stage_ids (st ∷ rest) = st.id ∷ stage_ids rest

-- The body of the loop over the edges, for the keys of `stageIDs`.
unfoldable pub check_edge : List String → EdgeIr → Option ValidationError
check_edge ids e =
    fail_if (not (contains ids e.from)) (unknown_from e.from)
    then_check fail_if (not (contains ids e.to)) (unknown_to e.to)
    then_check fail_if (not (e.route == "") && not (e.condition == ""))
        (route_and_condition e.from e.to)

-- incoming[id], len(outgoing[id])
unfoldable pub incoming : String → List EdgeIr → ℕ
incoming id [] = 0
incoming id (e ∷ es) = let n = incoming id es in if e.to == id then suc n else n

unfoldable pub outgoing : String → List EdgeIr → ℕ
outgoing id [] = 0
outgoing id (e ∷ es) = let n = outgoing id es in if e.from == id then suc n else n

-- The switch on the kind of a stage.
unfoldable pub check_kind : List EdgeIr → StageIr → Option ValidationError
check_kind es st =
    if st.kind == kind_source
    then fail_if (ltb 0 (incoming st.id es)) (source_has_incoming st.id)
    else if st.kind == kind_sink
    then fail_if (ltb 0 (outgoing st.id es)) (sink_has_outgoing st.id)
    else if st.kind == kind_transform
    then none
    else some (unknown_kind st.id st.kind)

-- The counters `sources` and `sinks`.
unfoldable pub count_kind : String → List StageIr → ℕ
count_kind kind [] = 0
count_kind kind (st ∷ rest) = let n = count_kind kind rest in if st.kind == kind then suc n else n

unfoldable pub check_incoming : List EdgeIr → StageIr → Option ValidationError
check_incoming es st =
    fail_if (not (st.kind == kind_source) && eqb (incoming st.id es) 0) (no_incoming st.id)

unfoldable pub check_ordering : StageIr → Option ValidationError
check_ordering st =
    fail_if (st.ordering == "ordered" && ltb_ℤ (pos 1) st.max_in_flight) (ordered_in_flight st.id)

-- CodecRef.IsEmpty of internal/config/normalize.go, at a pointer that is not nil
abbrev has_entries : Option Fields → Bool
has_entries none = false
has_entries (some nil) = false
has_entries (some (field k v m)) = true

unfoldable pub is_empty : CodecRef → Bool
is_empty c = c.type == "" && c.ref == "" && not (has_entries c.config)

unfoldable pub validate_codec_ref :
    String → Option CodecRef → Dict CodecIr → String → Option ValidationError
unfolding is_empty
validate_codec_ref id none codecs role = none
validate_codec_ref id (some ref) codecs role =
    if is_empty ref
    then none
    else fail_if (not (ref.ref == "") && not (has ref.ref codecs)) (codec_not_found id role ref.ref)

unfoldable pub check_codecs : Dict CodecIr → StageIr → Option ValidationError
check_codecs codecs st =
    validate_codec_ref st.id st.decoder codecs "decoder"
    then_check validate_codec_ref st.id st.encoder codecs "encoder"

-- `out_of_fuel` is an outcome of the models of the searches only, not of the code.
abbrev pub check_cycle : Cycle.Visit → Option ValidationError
check_cycle (Cycle.clear visited) = none
check_cycle (Cycle.cycle node) = some (cycle_detected node)
check_cycle Cycle.out_of_fuel = some search_unfinished

abbrev pub check_path : Path.Outcome → Option ValidationError
check_path Path.found = none
check_path Path.missing = some no_path
check_path Path.out_of_fuel = some search_unfinished

unfoldable pub validate : TopologyIr → Option ValidationError
validate ir =
    check_ids [] ir.stages
    then_check check_each (check_edge (stage_ids ir.stages)) ir.edges
    then_check check_each (check_kind ir.edges) ir.stages
    then_check fail_if (eqb (count_kind kind_source ir.stages) 0) no_source
    then_check fail_if (eqb (count_kind kind_sink ir.stages) 0) no_sink
    then_check check_each (check_incoming ir.edges) ir.stages
    then_check check_cycle (detect_cycle ir.stages ir.edges)
    then_check check_path (has_source_to_sink_path ir.stages ir.edges)
    then_check check_each check_ordering ir.stages
    then_check check_each (check_codecs ir.codecs) ir.stages
