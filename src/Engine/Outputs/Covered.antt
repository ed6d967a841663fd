-- ===== src/Engine/Outputs/Covered.antt =====
-- dispatchTransformOutputs (internal/engine/dispatch.go) accounts for every input.
use mathlib.Core.List.{append-nil}
use eventr.Common.{
  Bool, true, false, String, List, [], ◌∷◌, ◌++◌, map, ℕ, suc, ◌+◌, ◌≡◌, ◌≢◌, refl, Option, none,
  some, if◌then◌else◌, eqb, ◌&&◌, length, arith, All,
}
use eventr.Common.Text.{◌==◌, contains, string_dec}
use eventr.Common.Dict.{Dict, lookup, insert, get_or, lookup-insert}
use eventr.Engine.Outputs.{
  Message, Aggregator, Effect, ack_nil, pass, child, count_outputs, is_output, Progress, take_input,
  take_inputs, send_children, dispatch_transform_outputs,
}

-- The outputs with an id.
abbrev pub outputs_of : String → List Message → List Message
outputs_of id [] = []
outputs_of id (o ∷ rest) = let more = outputs_of id rest in if o.id == id then o ∷ more else more

abbrev pub message_of : Effect → Message
message_of (ack_nil m) = m
message_of (pass m) = m
message_of (child m agg) = m

-- The effects on messages with an id.
abbrev pub about : String → List Effect → List Effect
about id [] = []
about id (e ∷ rest) = let more = about id rest in if (message_of e).id == id then e ∷ more else more

-- What becomes of an input, said by the outputs that carry its id.
abbrev pub expected : Message → List Message → List Effect
expected m outputs =
    let mine = outputs_of m.id outputs in
    if eqb (length mine) 0
    then ack_nil m ∷ []
    else if eqb (length mine) 1 && is_output m outputs
    then pass m ∷ []
    else map (λ o. child o (record { pending = length mine; parent = m })) mine

about-append : (id : String) (a b : List Effect) → about id (a ++ b) ≡ about id a ++ about id b
about-append id [] b = refl
about-append id (e ∷ a) b = ground (arith, about-append id a b)

count_outputs-length :
    (counts : Dict ℕ) (id : String) (outputs : List Message)
    → get_or id 0 (count_outputs counts outputs)
      ≡ get_or id 0 counts + length (outputs_of id outputs)
unfolding count_outputs
count_outputs-length counts id [] = omega arith
count_outputs-length counts id (o ∷ rest) =
    let n = suc (get_or o.id 0 counts) in
    ground
      (arith, count_outputs-length (insert o.id n counts) id rest, lookup-insert id o.id n counts)

module _ (id : String) where
  -- The part of the first loop's state that an id sees.
  record Sees (p : Progress) (passed : Bool) (agg : Option Aggregator) (done : List Effect)
      : Type 0 where
    is_passed : contains p.passed id ≡ passed
    has_agg : lookup id p.aggs ≡ agg
    effects : about id p.effects ≡ done

  -- An input with another id leaves it as it is.
  take_input-other :
      (counts : Dict ℕ) (outputs : List Message) (m : Message) (p : Progress) {b : Bool}
      {agg : Option Aggregator} {done : List Effect}
      → m.id ≢ id
      → Sees p b agg done
      → Sees (take_input counts outputs m p) b agg done
  unfolding take_input
  take_input-other counts outputs m p ne s =
      let agg : Aggregator = record { pending = get_or m.id 0 counts; parent = m } in
      let l = lookup-insert id m.id agg p.aggs in
      let a = about-append id p.effects (ack_nil m ∷ []) in
      let b = about-append id p.effects (pass m ∷ []) in
      record {
        is_passed = ground (arith, s.is_passed);
        has_agg = ground (arith, s.has_agg);
        effects = ground (arith, s.effects, append-nil (about id p.effects));
      }

  take_inputs-other :
      (counts : Dict ℕ) (outputs inputs : List Message) (p : Progress) {b : Bool}
      {agg : Option Aggregator} {done : List Effect}
      → All (λ m. m.id ≢ id) inputs
      → Sees p b agg done
      → Sees (take_inputs counts outputs inputs p) b agg done
  unfolding take_inputs
  take_inputs-other counts outputs [] p h s = s
  take_inputs-other counts outputs (m ∷ rest) p (ne, h) s =
      take_inputs-other counts outputs rest _ h (take_input-other counts outputs m p ne s)

  -- The second loop gives the outputs with the id to the aggregator, if there is one.
  about-send_children :
      (passed : List String) (aggs : Dict Aggregator) (outputs : List Message)
      → about id (send_children passed aggs outputs) ≡ (
          if contains passed id then [] else elim (lookup id aggs) [
            | none ↦ []
            | some agg ↦ map (λ o. child o agg) (outputs_of id outputs)
          ])
  unfolding send_children
  about-send_children passed aggs [] = ground arith
  about-send_children passed aggs (o ∷ rest) = elim (string_dec o.id id) [
    | yes e ↦ rw e (ground (arith, about-send_children passed aggs rest))
    | no ne ↦ ground (arith, about-send_children passed aggs rest)
  ]

-- The state after the input itself, where nothing was known of its id before.
abbrev own_passed : ℕ → Bool → Bool
own_passed n out = if eqb n 0 then false else if eqb n 1 && out then true else false

abbrev own_agg : ℕ → Bool → Message → Option Aggregator
own_agg n out m =
    if eqb n 0
    then none
    else if eqb n 1 && out
    then none
    else some (record { pending = n; parent = m })

abbrev own_effects : ℕ → Bool → Message → List Effect
own_effects n out m = if eqb n 0 then ack_nil m ∷ [] else if eqb n 1 && out then pass m ∷ [] else []

take_input-own :
    (counts : Dict ℕ) (outputs : List Message) (m : Message) (p : Progress)
    → Sees m.id p false none []
    → let n = get_or m.id 0 counts in
      let out = is_output m outputs in
      Sees m.id
        (take_input counts outputs m p)
        (own_passed n out)
        (own_agg n out m)
        (own_effects n out m)
unfolding take_input
take_input-own counts outputs m p s =
    let agg : Aggregator = record { pending = get_or m.id 0 counts; parent = m } in
    let l = lookup-insert m.id m.id agg p.aggs in
    let a = about-append m.id p.effects (ack_nil m ∷ []) in
    let b = about-append m.id p.effects (pass m ∷ []) in
    record {
      is_passed = ground (arith, s.is_passed);
      has_agg = ground (arith, s.has_agg, s.is_passed);
      effects = ground (arith, s.effects);
    }

take_inputs-append :
    (counts : Dict ℕ) (outputs pre post : List Message) (p : Progress)
    → take_inputs counts outputs (pre ++ post) p
      ≡ take_inputs counts outputs post (take_inputs counts outputs pre p)
unfolding take_inputs
take_inputs-append counts outputs [] post p = refl
take_inputs-append counts outputs (m ∷ pre) post p = take_inputs-append counts outputs pre post _

-- The two loops together, for an id whose state after the first loop is that of its own input.
finish_own :
    (m : Message) (outputs : List Message) (p : Progress) (n : ℕ)
    → n ≡ length (outputs_of m.id outputs)
    → (let out = is_output m outputs in
        Sees m.id p (own_passed n out) (own_agg n out m) (own_effects n out m))
    → about m.id (p.effects ++ send_children p.passed p.aggs outputs) ≡ expected m outputs
finish_own m outputs p n e s =
    let a = about-append m.id p.effects (send_children p.passed p.aggs outputs) in
    let c = about-send_children m.id p.passed p.aggs outputs in
    ground (
      arith,
      a,
      c,
      s.is_passed,
      s.has_agg,
      s.effects,
      append-nil (own_effects n (is_output m outputs) m),
    )

-- Where no other input has the id of an input m, what happens to the messages with that id is: m is
-- acknowledged with nil if no output has the id; m itself is passed on if it is the only output with
-- the id; and else each output with the id is sent as a child of m, in order, and the aggregator
-- waits for exactly as many children.
pub dispatch_transform_outputs-expected :
    (pre : List Message) (m : Message) (post outputs : List Message)
    → All (λ x. x.id ≢ m.id) pre
    → All (λ x. x.id ≢ m.id) post
    → about m.id (dispatch_transform_outputs (pre ++ m ∷ post) outputs) ≡ expected m outputs
unfolding dispatch_transform_outputs lookup
dispatch_transform_outputs-expected pre m post outputs h k =
    let counts = count_outputs [] outputs in
    let start : Progress = record { passed = []; aggs = []; effects = [] } in
    let before : Sees m.id start false none [] = record {
      is_passed = refl;
      has_agg = refl;
      effects = refl;
    } in
    let own =
      take_input-own counts outputs m _
        (take_inputs-other m.id counts outputs pre start h before) in
    rw (take_inputs-append counts outputs pre (m ∷ post) start) (
      finish_own m outputs _ (get_or m.id 0 counts)
        (omega (arith, count_outputs-length [] m.id outputs))
        (take_inputs-other m.id counts outputs post _ k own))
