-- ===== src/Tests/Programs.antt =====
-- A program of two assignments, and one of them in the copy of a message.
use eventr.Common.{
  if◌then◌else◌, true, String, List, [], ◌∷◌, Option, none, some, ◌≡◌, refl, ◌⊎◌, inr, arith,
}
use eventr.Common.Text.{string_dec, ◌==◌}
use eventr.Config.Value.{text, field, nil}
use eventr.Message.{Message}
use eventr.Eql.{set_path}
use eventr.Eql.Text.{has_prefix, has_suffix, trim_prefix, trim_suffix, trim_of, trim_root}
use eventr.Eql.Heap.{Heap, Data, map_at, nil_map, other, read}
use eventr.Eql.Program.{
  Statement, assign, References, bindings, EqlError, Context, execute_assign, eval_mapping,
}
use eventr.Eql.Program.Aliases.{eval_mapping-aliases}
use eventr.Eql.Program.Shared.{copy_context, data_of, assign_below_shared}
use eventr.Tests.Samples.{ne_of_test}

abbrev heap : Heap
heap = record { cell = λ a. field "x" (text "old") nil; next = 2 }

-- Expressions that are texts stand for themselves.
abbrev literal : String → References → String ⊎ Data
literal s b = inr (other (text s))

abbrev whole : String → List String
whole s = s ∷ []

abbrev parent : Message String Data String
parent = record {
  id = "a";
  payload = some "";
  metadata = none;
  parsed_data = some (map_at 0);
  parsed_dirty = true;
  parsed_codec = "";
  decoder_stage_id = "in";
  read_only = true;
  original_payload = none;
  ack_fn = [];
}

abbrev context : Context String String
context = copy_context parent 0 none (some 1) heap

-- The expression "input" stands for the map of the input, and the others for themselves.
abbrev by_name : String → References → String ⊎ Data
by_name s b =
    if s == "input"
    then inr (elim b.input [ none ↦ nil_map | some a ↦ map_at a ])
    else inr (other (text s))

abbrev with_input : Context String String
with_input = record context { input = some 1 }

new_always : (b : References) → by_name "new" b ≡ inr (other (text "new"))
unfolding string_dec
new_always b = refl

-- payload = input; payload.x = new
abbrev program : List (Statement String)
program = assign "payload" "input" ∷ assign "payload.x" "new" ∷ []

eval_mapping-aliases_example :
    let r : Context String String × Option (EqlError String) =
      eval_mapping by_name whole program with_input in
    (r.0.payload ≡ some 1)
    × (read 1 r.0.heap
        ≡ set_path whole (read 1 heap) (trim_root "payload.x" "payload") (text "new"))
unfolding has_prefix string_dec bindings
eval_mapping-aliases_example =
    eval_mapping-aliases by_name whole "input" "new" "payload.x" (text "new") 1 with_input refl
      new_always (omega arith) refl (ne_of_test "payload.x" "payload" refl)

assign_below_shared_example :
    let r : Context String String × Option (EqlError String) =
      execute_assign literal whole "payload.x" (other (text "new")) context in
    (read 0 r.0.heap ≡ set_path whole (read 0 heap) (trim_root "payload.x" "payload") (text "new"))
    × (data_of r.0.msg ≡ some (map_at 0))
unfolding has_prefix string_dec
assign_below_shared_example =
    assign_below_shared literal whole parent 0 none (some 1) heap "payload.x" (text "new")
      (omega arith) refl (ne_of_test "payload.x" "payload" refl)

trim_root_runs :
    (trim_root "payload.x" "payload" ≡ "x")
    × (trim_root "payload[\"a.b\"]" "payload" ≡ "a.b")
    × (trim_root "payload[a]" "payload" ≡ "a")
unfolding trim_root has_prefix has_suffix trim_prefix trim_suffix trim_of string_dec
trim_root_runs = (refl, refl, refl)
