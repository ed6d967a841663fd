-- ===== src/Engine/Sink/Positive.antt =====
-- The settings that runSink (internal/engine/pipeline.go) reads.
use eventr.Common.{
  true, String, List, [], ◌∷◌, ℕ, suc, zero, Option, none, some, ◌≡◌, refl, arith, if_elim,
}
use eventr.Common.Text.{◌==◌}
use eventr.Common.Int.{ℤ, pos, negsuc, ltb_ℤ}
use eventr.Topology.Ir.{StageIr}
use eventr.Config.Types.{BatchConfig}
use eventr.Engine.Sink.{Settings, set_batch, set_in_flight, read_settings}

-- The settings make sense: at least one message to a batch, and one batch in flight.
abbrev IsPositive : Settings → Type 0
IsPositive s = (ltb_ℤ (pos 0) s.batch_size ≡ true) × (ltb_ℤ (pos 0) s.max_in_flight ≡ true)

module _ (parse_duration : String → ℤ) where
  set_batch-IsPositive :
      (o : Option BatchConfig) (s : Settings)
      → IsPositive s
      → IsPositive (set_batch parse_duration o s)
  unfolding set_batch
  set_batch-IsPositive none s h = h
  set_batch-IsPositive (some b) s h = ground arith

  set_in_flight-IsPositive :
      (st : StageIr) (s : Settings) → IsPositive s → IsPositive (set_in_flight parse_duration st s)
  unfolding set_in_flight
  set_in_flight-IsPositive st s h = ground arith

  pub read_settings-IsPositive :
      (id : String) (stages : List StageIr) (s : Settings)
      → IsPositive s
      → IsPositive (read_settings parse_duration id stages s)
  unfolding read_settings
  read_settings-IsPositive id [] s h = h
  read_settings-IsPositive id (st ∷ stages) s h = read_settings-IsPositive id stages _ (
      if_elim IsPositive (st.id == id) _ _
        (λ _. set_in_flight-IsPositive st _ (set_batch-IsPositive st.batch s h)) (λ _. h))

pub suc_of_positive : (x : ℤ) → ltb_ℤ (pos 0) x ≡ true → (n : ℕ) × (x ≡ pos (suc n))
suc_of_positive (pos zero) h = cc
suc_of_positive (pos (suc n)) h = (n, refl)
suc_of_positive (negsuc n) h = absurd (ground arith)
