-- ===== src/Tests/Pipeline.antt =====
-- Witnesses on the construction of a pipeline, its transforms and its sinks.
use mathlib.Core.List.Memᴰ
use eventr.Common.{
  ◌^◌, true, false, String, List, [], ◌∷◌, ◌++◌, ℕ, none, some, ◌≡◌, refl, ◌⊎◌, inl, inr, All,
  length, ◌&&◌, if◌then◌else◌, arith,
}
use eventr.Common.Int.{ℤ, pos, pos_part}
use eventr.Common.Outcome.{err, Safe}
use eventr.Topology.Ir.{StageIr}
use eventr.Topology.Defaults.{buffer_size, default_buffer}
use eventr.Common.Dict.{lookup}
use eventr.Common.Text.{string_dec}
use eventr.Tests.Topology.{topology-IsValid}
use eventr.Message.{Message, original_payload_of}
use eventr.Registry.{Registry, new_registry, unknown_source, create_source}
use eventr.Engine.ErrorMode.{propagate}
use eventr.Engine.Dispatch.{Evaluated, value}
use eventr.Engine.Graph.{Platform, build_runtime_graph}
use eventr.Engine.Graph.Sizes.{IsSized, HasRoom}
use eventr.Engine.Graph.Total.{IsGraphOf, build_runtime_graph-Safe}
use eventr.Engine.Build.{
  PipelineError, stage_failed, new_pipeline, as_sink, instantiate_stages, instantiate_stage,
}
use eventr.Engine.Build.Sound.{is_fault, new_pipeline_err}
use eventr.Engine.Sink.{
  Event, receive, fire, tick, done, running, spent, sink_settings, start_loop, run_loop,
}
use eventr.Engine.Sink.Batches.{concat, taken, is_done, IsBatch, sink_batches}
use eventr.Engine.Sink.Timeout.{idle_tick_waits}
use eventr.Engine.Transform.{Decoder, run_batch}
use eventr.Engine.Transform.Accounts.{count, settled, run_batch-settled}
use eventr.Engine.Flush.{Surroundings, ack_all, has_dlq, flush_sink_batch}
use eventr.Engine.Flush.Accounts.{
  HasOriginal, payloads, original_payloads, is_some, flush_sink_batch-accounts,
}
use eventr.Tests.Samples.{stage, topology}

abbrev sinks : List StageIr
sinks =
    record (stage "out" "sink") {
      batch = some (record { size = pos 2; timeout = "1s"; max_bytes = pos 0 });
    }
    ∷ []

abbrev one_second : String → ℤ
one_second s = pos 1_000_000_000

abbrev events : List (Event ℕ)
events = receive 1 ∷ receive 2 ∷ receive 3 ∷ fire ∷ tick ∷ receive 4 ∷ done ∷ []

sink_batches_example :
    let s = sink_settings one_second "out" sinks in
    let r = run_loop s.batch_size events (start_loop s) in
    (concat r.1 ++ r.0.batch ≡ taken false events)
    × All (IsBatch (pos_part s.batch_size)) r.1
    × (is_done false events ≡ true → length r.0.batch ≡ 0)
sink_batches_example = sink_batches one_second "out" sinks events

abbrev late : List (Event ℕ)
late = receive 1 ∷ receive 2 ∷ []

idle_tick_waits_example :
    run_loop (pos 3) (fire ∷ tick ∷ late) (record { batch = []; timer = running; closed = false })
    ≡ (record { batch = taken false late; timer = spent; closed = false }, [])
unfolding taken
idle_tick_waits_example = idle_tick_waits 2 late (omega arith) refl

-- Messages whose payload, decoded value and handlers are texts.
abbrev Text : Type 0
Text = Message String String String

abbrev letter : String → Text
letter s = record {
  id = s;
  payload = some s;
  metadata = none;
  parsed_data = some s;
  parsed_dirty = true;
  parsed_codec = "";
  decoder_stage_id = "in";
  read_only = false;
  original_payload = none;
  ack_fn = s ∷ [];
}

abbrev letters : List Text
letters = letter "a" ∷ letter "b" ∷ []

abbrev no_decoders : List (String × Decoder String String String)
no_decoders = []

abbrev always : Text → String → Evaluated String
always m p = value true

run_batch-settled_example :
    settled "a" (run_batch no_decoders always propagate (some "p") (λ ms. inr ms) letters)
    ≡ count "a" letters
run_batch-settled_example =
    run_batch-settled no_decoders always propagate (some "p") (λ ms. inr ms) letters "a"

abbrev surroundings : Surroundings String String String String
surroundings = record {
  pipeline = "small";
  source = "out";
  now = "";
  describe = λ e. "";
  new_id = λ n. "dead";
  dlq = some (record { sink = "dead"; include_current_payload = false });
  stages = ("dead", as_sink "dead") ∷ [];
}

letters-HasOriginal : HasOriginal letters
unfolding original_payload_of
letters-HasOriginal m l = elim (Memᴰ.cases_cons l) [
  | inl e ↦ rw e (λ h. cc)
  | inr later ↦ elim (Memᴰ.cases_cons later) [
    | inl e ↦ rw e (λ h. cc)
    | inr last ↦ absurd (Memᴰ.not-nil last)
  ]
]

flush_sink_batch-accounts_example :
    let f =
      flush_sink_batch surroundings
        (some (λ d. inr d))
        (λ ms n. some "down")
        (λ n. none)
        none
        letters in
    (f.acks ≡ ack_all f.written.error letters)
    × (payloads f.dead ≡ (
        if is_some f.written.error && has_dlq surroundings.dlq surroundings.stages
        then original_payloads letters
        else []))
flush_sink_batch-accounts_example =
    flush_sink_batch-accounts surroundings (some (λ d. inr d)) (λ ms n. some "down") (λ n. none)
      none letters letters-HasOriginal

abbrev compile_any : String → String ⊎ String
compile_any s = inr s

abbrev disk_opens : Platform String
disk_opens = record {
  join = λ parts. "";
  parse_duration = λ s. none;
  open_disk = λ o. none;
  max_pointers = 2 ^ 44;
  max_slices = 2 ^ 42;
}

disk_opens-HasRoom : HasRoom disk_opens
disk_opens-HasRoom = record { pointers = omega arith; slices = omega arith }

topology-IsSized : IsSized disk_opens topology
unfolding buffer_size default_buffer string_dec
topology-IsSized = record {
  workers = λ s l. elim (Memᴰ.cases_cons l) [
    | inl e ↦ rw e refl
    | inr later ↦ elim (Memᴰ.cases_cons later) [
      | inl e ↦ rw e refl
      | inr last ↦ absurd (Memᴰ.not-nil last)
    ]
  ];
  buffers = λ e l. elim (Memᴰ.cases_cons l) [
    | inl same ↦ rw same refl
    | inr last ↦ absurd (Memᴰ.not-nil last)
  ];
}

build_runtime_graph-Safe_example :
    Safe (IsGraphOf topology) (build_runtime_graph compile_any disk_opens topology)
build_runtime_graph-Safe_example =
    build_runtime_graph-Safe compile_any disk_opens topology disk_opens-HasRoom topology-IsValid
      topology-IsSized

-- A registry that knows no type.
abbrev empty_registry : Registry String String String String String
empty_registry = new_registry

abbrev unknown_any : PipelineError String
unknown_any = stage_failed "in" (unknown_source "any")

empty_registry_fails : new_pipeline empty_registry compile_any disk_opens topology ≡ err unknown_any
unfolding new_pipeline instantiate_stages instantiate_stage create_source lookup string_dec
    new_registry
empty_registry_fails = refl

new_pipeline_err_example : is_fault unknown_any ≡ false
new_pipeline_err_example =
    new_pipeline_err empty_registry compile_any disk_opens topology unknown_any topology-IsValid
      empty_registry_fails
