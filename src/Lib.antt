-- ===== src/Lib.antt =====
-- Verification of eventr, an event pipeline engine: sources emit messages, transforms and sinks take
-- them along the edges of a configured graph, and each message is acknowledged once its branches end.
--
-- A configuration file becomes a tree of values and then records (internal/config), these become a
-- topology that is validated (internal/topology), and the engine (internal/engine) runs it: it gives
-- each transform its goroutines, dispatches messages along edges whose conditions hold, counts the
-- messages in flight, retries sinks, and reloads pipelines. Transforms write to payloads and
-- metadata by expressions and paths (internal/eql). An edge buffers messages in memory or on
-- disk (internal/buffer).
--
-- Files, with the code that they are about:
--   Common and Common/        tests on numbers, lists, integers, texts and association lists
--   Config/Types              the records of internal/config/config.go
--   Config/Value              the `any` values of configuration trees
--   Config/Edges              ResolveType, MergeEdgeAttrs, RouteCondition, ExpandDependsOn
--                             (internal/config/normalize.go); proofs in Edges/Merge and Edges/Expand
--   Config/Normalize          NormalizeSteps, NormalizePipeline, MergeDeprecatedEdges, BuildTopologyIR
--   Config/Defaults           ApplyEngineDefaults, ApplyObservabilityDefaults, ValidateStageKinds
--   Config/Hocon and Hocon/   mapToPipelineConfig and what it calls (internal/config/hocon.go)
--   Topology/Ir               internal/topology/ir.go
--   Topology/Defaults         DefaultBuffer, BufferSize, BatchSize (internal/topology/ir.go)
--   Topology/Build            FromConfig (internal/topology/build.go); proofs in Build/Codecs
--                             and Build/Sound
--   Topology/Validate         Validate (internal/topology/validate.go); proofs in Validate/
--   Topology/Cycle, Path      detectCycle and hasSourceToSinkPath, over Topology/Graph; proofs below them
--   Message                   internal/message/message.go
--   Registry                  internal/registry/registry.go
--   Engine/Graph              buildRuntimeGraph, allEdgeInbounds (internal/engine/graph.go) and
--                             NewEdgeInbound (internal/buffer/edge.go); proofs in Graph/Growth, Graph/Total
--   Engine/Build              NewPipeline, instantiateStage, resolveCodecs (internal/engine/pipeline.go)
--   Engine/Transform          ensureParsed and a turn of runTransform (internal/engine/pipeline.go)
--   Engine/Sink               the select loop of runSink (internal/engine/pipeline.go), one step per event
--   Engine/Flush              flushSinkBatch, reserializeIfDirty, findDeliveryForStage, deliverToDLQ
--   Engine/Workers            allocateTransformWorkers (internal/engine/workers.go)
--   Engine/ErrorMode          internal/engine/errormode.go
--   Engine/Dispatch           dispatchFrom, matchEdges, evalCondition (internal/engine/pipeline.go,
--                             internal/engine/dispatch.go)
--   Engine/Acks               the acknowledgement closures of both files, each call in atomic steps
--                             that interleave with those of the other calls
--   Engine/Outputs            dispatchTransformOutputs (internal/engine/dispatch.go)
--   Engine/Inflight           acquireInflight, releaseInflight (internal/engine/inflight.go)
--   Engine/Retry              writeWithRetry, retryDelay (internal/engine/pipeline.go)
--   Engine/Reload             internal/engine/reload.go over the table of internal/engine/engine.go
--   Buffer/Disk               Append and ReadNext of DiskWAL (internal/buffer/disk.go)
--   Buffer/Wal                encodeWALRecord and decodeWALRecord (internal/buffer/wal.go)
--   Buffer/Edge               Enqueue, drainLoop and what they call (internal/buffer/edge.go)
--   Eql                       setPath, delPath and splitPath (internal/eql/eql.go); proofs in Eql/
--   Eql/Text, Eql/Compile     trimRoot; the compilation of programs
--   Eql/Heap, Eql/Program     maps under addresses; EvalMapping and the Execute methods
--   Plugins/Filter, Route     plugins/transform/filter/filter.go, plugins/transform/route/route.go
--   Tests/                    runs at concrete inputs
--
-- A pointer is an Option, a struct a record, a Go map an association list in the order in which a loop
-- runs over it (Go leaves that order open), an int a ℤ, and an error a value of a data type that keeps
-- what the message names. Widths are written out where a number may wrap: int32(max) in
-- Engine/Inflight, the int32 `pending` in Engine/Acks, uint32(len) in Buffer/Wal, and the 64 bits of a delay in Engine/Retry. The disk
-- buffer stands at the level of records, and its operations on the file system succeed; its abstract
-- view is the list of unread messages, `unread` of Buffer/Disk/Unread.
--
-- Fuel: the recursion of detectCycle has more fuel than there are stages and edge ends, the queue loop
-- of hasSourceToSinkPath likewise, and ReadNext one round more than there are segments.
--
-- Maps that several messages share stand under addresses in Eql/Heap. A map that lies inside another is
-- part of its cell, so that sharing below the root of a payload is not told apart: an expression may
-- give a map with an address by reference, and a map stored below another one is stored as a copy.
--
-- The largest channel that the Go runtime makes is a parameter of Engine/Graph; memory suffices.
--
-- A call of the edge buffer runs whole: its mutex and channels leave no other order for one sender, but
-- a sender that meets the drain loop halfway is not modelled. The select loop of a sink is exact, the
-- goroutines that carry batches from it to the sink are not modelled.
--
-- Not modelled: the YAML and HOCON parsers and the expression library (parameters where they are
-- used), the loader, the sources, sinks, codecs, map and wasm of the plugins, the HTTP servers, metrics and logs,
-- the recovery of a disk buffer, and the goroutines that start, feed and stop a pipeline.
pub mod Common
pub mod Config
pub mod Topology
pub mod Message
pub mod Registry
pub mod Engine
pub mod Buffer
pub mod Eql
pub mod Plugins
pub mod Tests
