-- ===== src/Config/Types.antt =====
-- internal/config/config.go: the configuration of a pipeline, as the loaders fill it. A pointer is
-- an Option, an int is a ℤ, and a Go map an association list in the order in which a loop over it
-- runs (Go leaves that order open).
use eventr.Common.{String, Bool, Option, List}
use eventr.Common.Int.{ℤ}
use eventr.Common.Dict.{Dict}
use eventr.Config.Value.{Fields}

pub record CodecRef : Type 0 where
  pub type : String
  pub ref : String
  pub config : Option Fields

pub record CodecConfig : Type 0 where
  pub name : String
  pub type : String
  pub config : Option Fields

pub record BatchConfig : Type 0 where
  pub size : ℤ
  pub timeout : String
  pub max_bytes : ℤ

pub record RetryConfig : Type 0 where
  pub max : ℤ
  pub backoff : String

pub record DeliverySpec : Type 0 where
  pub retry : Option RetryConfig
  pub timeout : String
  pub dlq : String

pub record EdgeBufferConfig : Type 0 where
  pub type : String
  pub size : ℤ
  pub strategy : String
  pub key : List String
  pub disk_path : String
  pub disk_max_size : ℤ
  pub disk_sync_interval : String

pub record EdgeAttrs : Type 0 where
  pub condition : String
  pub route : String
  pub buffer : Option EdgeBufferConfig
  pub delivery : Option DeliverySpec
  pub required : Option Bool

pub record EdgeConfig : Type 0 where
  pub from : String
  pub to : String
  pub condition : String
  pub route : String
  pub buffer : Option EdgeBufferConfig
  pub delivery : Option DeliverySpec
  pub required : Option Bool

pub record DependsOnEntry : Type 0 where
  pub upstream : String
  pub edge : Option EdgeAttrs

pub record SourceBlock : Type 0 where
  pub type : String
  pub decoder : Option CodecRef
  pub config : Option Fields

pub record TransformBlock : Type 0 where
  pub type : String
  pub predicate : String
  pub workers : ℤ
  pub error_mode : String
  pub config : Option Fields

pub record SinkBlock : Type 0 where
  pub type : String
  pub encoder : Option CodecRef
  pub batch : Option BatchConfig
  pub ordering : String
  pub max_in_flight : ℤ
  pub config : Option Fields

pub record StepConfig : Type 0 where
  pub step_type : String
  pub depends_on : List DependsOnEntry
  pub source : Option SourceBlock
  pub transform : Option TransformBlock
  pub sink : Option SinkBlock

pub record StageConfig : Type 0 where
  pub id : String
  pub kind : String
  pub type : String
  pub depends_on : List DependsOnEntry
  pub decoder : Option CodecRef
  pub encoder : Option CodecRef
  pub workers : ℤ
  pub predicate : String
  pub error_mode : String
  pub batch : Option BatchConfig
  pub ordering : String
  pub max_in_flight : ℤ
  pub config : Option Fields

pub record EngineConfig : Type 0 where
  pub max_workers : ℤ
  pub max_inflight : ℤ
  pub error_mode : String
  pub drain_timeout : String

pub record DlqConfig : Type 0 where
  pub sink : String
  pub include_current_payload : Bool

pub record MetricsConfig : Type 0 where
  pub enabled : Bool
  pub port : ℤ
  pub path : String

pub record HealthConfig : Type 0 where
  pub enabled : Bool
  pub port : ℤ
  pub liveness : String
  pub readiness : String

pub record LoggingConfig : Type 0 where
  pub level : String
  pub format : String

pub record ObservabilityConfig : Type 0 where
  pub metrics : MetricsConfig
  pub health : HealthConfig
  pub logging : LoggingConfig

pub record PipelineConfig : Type 0 where
  pub api_version : String
  pub kind : String
  pub metadata : Dict String
  pub engine : EngineConfig
  pub steps : Dict StepConfig
  pub pipeline : List StageConfig
  pub codecs : List CodecConfig
  pub edge_defaults : EdgeAttrs
  pub dlq : Option DlqConfig
  pub observability : ObservabilityConfig
  pub edges : List EdgeConfig
