-- ===== src/Topology/Ir.antt =====
-- internal/topology/ir.go: the intermediate representation of a pipeline.
use eventr.Common.{String, Bool, Option, List}
use eventr.Common.Int.{ℤ}
use eventr.Common.Dict.{Dict}
use eventr.Config.Value.{Fields}
use eventr.Config.Types.{
  CodecRef, BatchConfig, EdgeBufferConfig, DeliverySpec, EdgeAttrs, EngineConfig, DlqConfig,
  ObservabilityConfig,
}

abbrev pub kind_source : String
kind_source = "source"

abbrev pub kind_transform : String
kind_transform = "transform"

abbrev pub kind_sink : String
kind_sink = "sink"

pub record StageIr : Type 0 where
  pub id : String
  pub kind : String
  pub type : String
  pub workers : ℤ
  pub predicate : String
  pub error_mode : String
  pub decoder : Option CodecRef
  pub encoder : Option CodecRef
  pub batch : Option BatchConfig
  pub ordering : String
  pub max_in_flight : ℤ
  pub config : Option Fields

pub record CodecIr : Type 0 where
  pub name : String
  pub type : String
  pub config : Option Fields

pub record EdgeIr : Type 0 where
  pub from : String
  pub to : String
  pub condition : String
  pub route : String
  pub buffer : EdgeBufferConfig
  pub delivery : Option DeliverySpec
  pub required : Bool

pub record TopologyIr : Type 0 where
  pub name : String
  pub engine : EngineConfig
  pub stages : List StageIr
  pub edges : List EdgeIr
  pub codecs : Dict CodecIr
  pub edge_defaults : EdgeAttrs
  pub dlq : Option DlqConfig
  pub observability : ObservabilityConfig
  pub deprecation_warnings : List String
