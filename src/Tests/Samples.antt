-- ===== src/Tests/Samples.antt =====
-- Test data: a configuration of a source, a transform and a sink in a row.
use eventr.Common.{true, false, String, List, [], ◌∷◌, Option, none, some, ◌≡◌, ◌≢◌, arith}
use eventr.Common.Text.{◌==◌}
use eventr.Common.Int.{pos}
use eventr.Config.Types.{DependsOnEntry, StageConfig, PipelineConfig, DeliverySpec}
use eventr.Config.Edges.{no_attrs}
use eventr.Topology.Ir.{StageIr, EdgeIr, TopologyIr}
use eventr.Topology.Build.{no_buffer}

abbrev pub stage : String → String → StageIr
stage id kind = record {
  id = id;
  kind = kind;
  type = "any";
  workers = pos 1;
  predicate = "";
  error_mode = "";
  decoder = none;
  encoder = none;
  batch = none;
  ordering = "";
  max_in_flight = pos 0;
  config = none;
}

abbrev pub link : String → String → String → EdgeIr
link from to condition = record {
  from = from;
  to = to;
  condition = condition;
  route = "";
  buffer = no_buffer;
  delivery = none;
  required = true;
}

abbrev pub two_stages : List StageIr
two_stages = stage "in" "source" ∷ stage "out" "sink" ∷ []

abbrev pub one_edge : List EdgeIr
one_edge = link "in" "out" "" ∷ []

abbrev pub topology : TopologyIr
topology = record {
  name = "small";
  engine = record {
    max_workers = pos 0;
    max_inflight = pos 0;
    error_mode = "";
    drain_timeout = "";
  };
  stages = two_stages;
  edges = one_edge;
  codecs = [];
  edge_defaults = no_attrs;
  dlq = none;
  observability = record {
    metrics = record { enabled = false; port = pos 0; path = "" };
    health = record { enabled = false; port = pos 0; liveness = ""; readiness = "" };
    logging = record { level = ""; format = "" };
  };
  deprecation_warnings = [];
}

abbrev pub after_in : DependsOnEntry
after_in = record { upstream = "in"; edge = none }

abbrev pub staged : String → String → List DependsOnEntry → StageConfig
staged id kind deps = record {
  id = id;
  kind = kind;
  type = "any";
  depends_on = deps;
  decoder = none;
  encoder = none;
  workers = pos 1;
  predicate = "";
  error_mode = "";
  batch = none;
  ordering = "";
  max_in_flight = pos 0;
  config = none;
}

abbrev pub config : PipelineConfig
config = record {
  api_version = "";
  kind = "";
  metadata = [];
  engine = topology.engine;
  steps = [];
  pipeline = staged "in" "source" [] ∷ staged "out" "sink" (after_in ∷ []) ∷ [];
  codecs = [];
  edge_defaults = no_attrs;
  dlq = none;
  observability = topology.observability;
  edges = [];
}

abbrev pub retry_twice : Option DeliverySpec
retry_twice =
    some (record { retry = some (record { max = pos 2; backoff = "" }); timeout = ""; dlq = "" })

-- Texts that the test on texts tells apart.
pub ne_of_test : (s t : String) → (s == t) ≡ false → s ≢ t
ne_of_test s t h = ground arith
