-- ===== src/Tests/Plugins.antt =====
-- A route transform of two routes, and a message.
use eventr.Common.{true, false, String, [], ◌∷◌, none, some, ◌≡◌, refl, ◌⊎◌, inr}
use eventr.Common.Text.{string_dec}
use eventr.Common.Codes.{is_space}
use eventr.Common.Dict.{Dict, insert, lookup}
use eventr.Common.Outcome.{Safe}
use eventr.Config.Value.{Value, Fields, text, bool, object, field, nil, find}
use eventr.Message.{Message}
use eventr.Eql.Text.{trim_space_of}
use eventr.Eql.Program.{Bindings}
use eventr.Eql.Compile.{Program, kind_filter, compile_filter}
use eventr.Plugins.Route.{
  new_route, from_routes, compile_routes, route_order, other_names, route_batch,
}
use eventr.Plugins.Route.Routed.{Routed, new_route-Routed}

abbrev cfg : Fields
cfg = field "routes" (object (field "urgent" (text "p") (field "_default" (text "true") nil))) nil

abbrev compile_any : String → String ⊎ String
compile_any s = inr s

abbrev only_default : String → Bindings → String ⊎ Value
only_default s b = inr (bool true)

abbrev program : String → Program String
program s = record { kind = kind_filter; statements = []; expr = some s }

abbrev routes : Dict (Program String)
routes = ("_default", program "true") ∷ ("urgent", program "p") ∷ []

abbrev message : Message String Value String
message = record {
  id = "a";
  payload = none;
  metadata = none;
  parsed_data = none;
  parsed_dirty = false;
  parsed_codec = "";
  decoder_stage_id = "";
  read_only = false;
  original_payload = none;
  ack_fn = [];
}

cfg_routes : new_route compile_any (λ names. names) cfg ≡ inr (routes, "urgent" ∷ "_default" ∷ [])
unfolding new_route from_routes compile_routes route_order other_names find insert lookup string_dec
    compile_filter trim_space_of is_space
cfg_routes = refl

new_route-Routed_example :
    Safe
      (Routed (λ p. nil) only_default routes ("urgent" ∷ "_default" ∷ []) (message ∷ []))
      (route_batch (λ p. nil) only_default routes ("urgent" ∷ "_default" ∷ []) (message ∷ []))
new_route-Routed_example =
    new_route-Routed compile_any (λ p. nil) only_default (λ names. names) (λ P names h. h) cfg
      routes ("urgent" ∷ "_default" ∷ []) (message ∷ []) cfg_routes
