-- ===== src/Engine/ErrorMode.antt =====
-- internal/engine/errormode.go: what becomes of a message whose evaluation failed.
use eventr.Common.{
  Bool, true, false, String, List, [], ◌∷◌, map, Option, none, some, ◌≡◌, refl, if◌then◌else◌,
}
use eventr.Common.Text.{◌==◌}
use eventr.Common.Codes.{codes, same_codes, trim_space, to_lower}
use eventr.Common.Dict.{Dict, lookup}

pub data ErrorMode : Type 0 where
  propagate ignore silent : ErrorMode

unfoldable pub parse_error_mode : String → ErrorMode
unfolding trim_space to_lower
parse_error_mode raw =
    let word = to_lower (trim_space (codes raw)) in
    if same_codes word (codes "ignore")
    then ignore
    else if same_codes word (codes "silent")
    then silent
    else propagate

-- `if mode, ok := p.stageErrorMode[stageID]; ok && mode != ""`
abbrev own_mode : Option String → String → String
own_mode none default = default
own_mode (some mode) default = if mode == "" then default else mode

-- The modes of the stages, and that of the engine.
unfoldable pub error_mode_for_stage : Dict String → String → String → ErrorMode
unfolding parse_error_mode
error_mode_for_stage modes default stage =
    parse_error_mode (if stage == "" then default else own_mode (lookup stage modes) default)

-- handleEvalError: whether to treat the failure as a condition that does not hold, the error to
-- acknowledge with, and whether the failure is counted under "dsl_ignore".
pub record Handled {ℓ} (E : Type ℓ) : Type ℓ where
  pub treat_as_false : Bool
  pub ack_error : Option E
  pub is_counted : Bool

module _ {ℓ} {E : Type ℓ} where
  unfoldable pub handle_eval_error : ErrorMode → Option E → Handled E
  handle_eval_error mode none = record {
    treat_as_false = false;
    ack_error = none;
    is_counted = false;
  }
  handle_eval_error ignore (some e) = record {
    treat_as_false = true;
    ack_error = none;
    is_counted = true;
  }
  handle_eval_error silent (some e) = record {
    treat_as_false = true;
    ack_error = none;
    is_counted = false;
  }
  handle_eval_error propagate (some e) = record {
    treat_as_false = false;
    ack_error = some e;
    is_counted = false;
  }

  -- The argument of `msg.Ack` in ackMessageError.
  unfoldable pub ack_message_error : ErrorMode → Option E → Option E
  unfolding handle_eval_error
  ack_message_error mode err =
      let h = handle_eval_error mode err in if h.treat_as_false then none else h.ack_error

  -- ackBatchError: each message of the batch with what it is acknowledged with.
  unfoldable pub ack_batch_error {κ} :
      {M : Type κ} → ErrorMode → Option E → List M → List (M × Option E)
  unfolding handle_eval_error
  ack_batch_error mode err [] = []
  ack_batch_error mode err (m ∷ batch) =
      let h = handle_eval_error mode err in
      (m, if h.treat_as_false then none else h.ack_error) ∷ ack_batch_error mode err batch

  abbrev pub surfaced : ErrorMode → E → Option E
  surfaced propagate e = some e
  surfaced ignore e = none
  surfaced silent e = none

  -- Under each mode a failed batch acknowledges every message of it once, in order, with what
  -- ackMessageError gives a single message: the error under propagate, and nil under ignore or silent.
  pub ack_batch_error-map {κ} :
      {M : Type κ} (mode : ErrorMode) (e : E) (batch : List M)
      → (ack_batch_error mode (some e) batch
          ≡ map (λ m. (m, ack_message_error mode (some e))) batch)
        × (ack_message_error mode (some e) ≡ surfaced mode e)
  unfolding ack_batch_error ack_message_error
  ack_batch_error-map propagate e [] = (refl, refl)
  ack_batch_error-map ignore e [] = (refl, refl)
  ack_batch_error-map silent e [] = (refl, refl)
  ack_batch_error-map propagate e (m ∷ batch) =
      (rw ((ack_batch_error-map propagate e batch).0), refl)
  ack_batch_error-map ignore e (m ∷ batch) = (rw ((ack_batch_error-map ignore e batch).0), refl)
  ack_batch_error-map silent e (m ∷ batch) = (rw ((ack_batch_error-map silent e batch).0), refl)
