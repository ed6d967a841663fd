-- ===== src/Topology/Defaults.antt =====
-- DefaultBuffer, BufferSize, BufferStrategy and BatchSize of internal/topology/ir.go.
use eventr.Common.{String, Option, none, some, if◌then◌else◌}
use eventr.Common.Int.{ℤ, pos, is_zero}
use eventr.Common.Text.{◌==◌}
use eventr.Config.Types.{EdgeBufferConfig, BatchConfig}
use eventr.Topology.Ir.{EdgeIr, StageIr}

abbrev default_text : String → String → String
default_text s d = if s == "" then d else s

abbrev default_number : ℤ → ℤ → ℤ
default_number n d = if is_zero n then d else n

unfoldable pub default_buffer : EdgeBufferConfig → EdgeBufferConfig
default_buffer cfg = record cfg {
  type = default_text cfg.type "memory";
  size = default_number cfg.size (pos 64);
  strategy = default_text cfg.strategy "block";
  disk_sync_interval = default_text cfg.disk_sync_interval "500ms";
  disk_max_size = default_number cfg.disk_max_size (pos 1_073_741_824);
}

unfoldable pub buffer_size : EdgeIr → ℤ
unfolding default_buffer
buffer_size e = (default_buffer e.buffer).size

unfoldable pub buffer_strategy : EdgeIr → String
unfolding default_buffer
buffer_strategy e = (default_buffer e.buffer).strategy

abbrev batch_size_of : Option BatchConfig → ℤ
batch_size_of none = pos 1
batch_size_of (some b) = default_number b.size (pos 1)

unfoldable pub batch_size : StageIr → ℤ
batch_size s = batch_size_of s.batch
