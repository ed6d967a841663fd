-- ===== src/Engine/Build/Sound.antt =====
-- How NewPipeline (internal/engine/pipeline.go) may fail on a topology that Validate accepts.
use mathlib.Core.List.{Memᴰ}
use eventr.Common.{
  Bool, true, false, not, String, List, [], ◌∷◌, Option, none, some, ◌⊎◌, inl, inr, ◌≡◌, ◌≢◌, refl,
  subst, arith, if_elim, option_elim,
}
use eventr.Common.Text.{◌==◌}
use eventr.Common.Dict.{Dict, lookup, insert, has}
use eventr.Common.Outcome.{Outcome, ok, err, panic, Fails, Fails-bind, Fails-ok}
use eventr.Config.Types.{CodecRef}
use eventr.Topology.Ir.{StageIr, CodecIr, TopologyIr, kind_source, kind_transform, kind_sink}
use eventr.Topology.Validate.{is_empty}
use eventr.Topology.Validate.Stages.{Resolves}
use eventr.Topology.Validate.Sound.{IsValid}
use eventr.Registry.{Registry, RegistryError}
use eventr.Eql.Compile.{Program}
use eventr.Engine.Graph.{Platform, RuntimeGraph, GraphError}
use eventr.Engine.Build.{
  Stage, as_source, as_transform, as_sink, PipelineError, unknown_stage_kind, stage_failed,
  ref_not_found, codec_failed, graph_failed, stage_of, codec_of, graph_of, instantiate_stage,
  instantiate_stages, resolve_ref, resolve_codec_ref, resolve_codecs, new_pipeline,
}

-- The errors that are faults of the topology, and not of a plugin, an expression or the disk.
abbrev pub is_fault {ℓ} : {E : Type ℓ} → PipelineError E → Bool
is_fault (unknown_stage_kind kind) = true
is_fault (stage_failed id e) = false
is_fault (ref_not_found id role ref) = true
is_fault (codec_failed id e) = false
is_fault (graph_failed e) = false

abbrev NoFault {ℓ κ} : {E : Type ℓ} {A : Type κ} → Outcome (PipelineError E) A → Type 0
NoFault o = Fails (λ e. is_fault e ≡ false) o

module _ {ℓ} {E Source Transform Sink Codec : Type ℓ}
    (reg : Registry E Source Transform Sink Codec) where
  stage_of-NoFault :
      {A : Type ℓ} (id : String) (f : A → Stage Source Transform Sink) (r : RegistryError E ⊎ A)
      → NoFault (stage_of reg id f r)
  unfolding Fails
  stage_of-NoFault id f (inl e) = refl
  stage_of-NoFault id f (inr a) = tt

  codec_of-NoFault : (id : String) (r : RegistryError E ⊎ Codec) → NoFault (codec_of reg id r)
  unfolding Fails
  codec_of-NoFault id (inl e) = refl
  codec_of-NoFault id (inr c) = tt

  instantiate_stage-NoFault :
      (st : StageIr)
      → (st.kind ≡ kind_source) ⊎ (st.kind ≡ kind_sink) ⊎ (st.kind ≡ kind_transform)
      → NoFault (instantiate_stage reg st)
  unfolding instantiate_stage
  instantiate_stage-NoFault st h =
      if_elim NoFault (st.kind == kind_source) _ _ (λ _. stage_of-NoFault st.id as_source _)
        (λ not_source.
          if_elim NoFault (st.kind == kind_transform) _ _
            (λ _. stage_of-NoFault st.id as_transform _)
            (λ not_transform.
              if_elim NoFault (st.kind == kind_sink) _ _ (λ _. stage_of-NoFault st.id as_sink _)
                (λ not_sink. absurd (ground arith))))

  instantiate_stages-NoFault :
      (stages : List StageIr) (made : Dict (Stage Source Transform Sink))
      → ((s : StageIr)
          → Memᴰ s stages
          → (s.kind ≡ kind_source) ⊎ (s.kind ≡ kind_sink) ⊎ (s.kind ≡ kind_transform))
      → NoFault (instantiate_stages reg stages made)
  unfolding instantiate_stages
  instantiate_stages-NoFault [] made h = Fails-ok _ _
  instantiate_stages-NoFault (st ∷ stages) made h =
      Fails-bind _ _ _ (instantiate_stage-NoFault st (h st (Memᴰ.head refl)))
        (λ s. instantiate_stages-NoFault stages (insert st.id s made) (λ x l. h x (Memᴰ.tail l)))

  resolve_ref-NoFault :
      (codecs : Dict CodecIr) (id role : String) (ref : CodecRef)
      → (ref.ref ≢ "" → has ref.ref codecs ≡ true)
      → NoFault (resolve_ref reg codecs id role ref)
  unfolding resolve_ref Fails
  resolve_ref-NoFault codecs id role ref h =
      if_elim NoFault (is_empty ref) _ _ (λ _. tt)
        (λ _.
          if_elim NoFault (not (ref.ref == "")) _ _
            (λ named.
              option_elim NoFault (lookup ref.ref codecs) _ _ (λ missing. absurd (ground arith))
                (λ cir _. codec_of-NoFault id _))
            (λ _.
              if_elim NoFault (not (ref.type == "")) _ _ (λ _. codec_of-NoFault id _) (λ _. tt)))

  resolve_codec_ref-NoFault :
      (codecs : Dict CodecIr) (id role : String) (ref : Option CodecRef)
      → Resolves codecs ref
      → NoFault (resolve_codec_ref reg codecs id role ref)
  unfolding resolve_codec_ref Fails
  resolve_codec_ref-NoFault codecs id role none h = tt
  resolve_codec_ref-NoFault codecs id role (some ref) h = resolve_ref-NoFault codecs id role ref h

  resolve_codecs-NoFault :
      (codecs : Dict CodecIr) (stages : List StageIr) (tables : Dict Codec × Dict Codec)
      → ((s : StageIr) → Memᴰ s stages → Resolves codecs s.decoder × Resolves codecs s.encoder)
      → NoFault (resolve_codecs reg codecs stages tables)
  unfolding resolve_codecs
  resolve_codecs-NoFault codecs [] tables h = Fails-ok _ _
  resolve_codecs-NoFault codecs (st ∷ stages) tables h =
      let (d, e) = h st (Memᴰ.head refl) in
      Fails-bind _ _ _ (resolve_codec_ref-NoFault codecs st.id "decoder" st.decoder d) (λ dec.
        Fails-bind _ _ _ (resolve_codec_ref-NoFault codecs st.id "encoder" st.encoder e)
          (λ enc. resolve_codecs-NoFault codecs stages _ (λ x l. h x (Memᴰ.tail l))))

  module _ {Expr : Type ℓ} (compile : String → E ⊎ Expr) (platform : Platform E) where
    graph_of-NoFault :
        (o : Outcome (GraphError E) (RuntimeGraph (Program Expr)))
        → NoFault (graph_of reg compile platform o)
    unfolding Fails
    graph_of-NoFault (ok g) = tt
    graph_of-NoFault (err e) = refl
    graph_of-NoFault panic = tt

    new_pipeline-NoFault :
        (ir : TopologyIr) → IsValid ir → NoFault (new_pipeline reg compile platform ir)
    unfolding new_pipeline
    new_pipeline-NoFault ir valid =
        Fails-bind _ _ _ (instantiate_stages-NoFault ir.stages [] valid.kinds) (λ stages.
          Fails-bind _ _ _
            (resolve_codecs-NoFault ir.codecs ir.stages ([], [])
              (λ s l. (valid.decoders s l, valid.encoders s l)))
            (λ tables. Fails-bind _ _ _ (graph_of-NoFault _) (λ g. Fails-ok _ _)))

    -- NewPipeline fails on a topology that Validate accepts only through a plugin, an expression or
    -- the disk: never for an unknown kind of stage, nor for a codec that is not declared.
    pub new_pipeline_err :
        (ir : TopologyIr) (e : PipelineError E)
        → IsValid ir
        → new_pipeline reg compile platform ir ≡ err e
        → is_fault e ≡ false
    unfolding Fails
    new_pipeline_err ir e valid h = subst (λ o. NoFault o) h (new_pipeline-NoFault ir valid)
