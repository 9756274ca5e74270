-- ===== src/Service/Alerts/History.antt =====
-- Every call of the alert service as a step of the world, and sequences of them. Between two calls
-- time passes, and other statements of the database may be due to fail.
use security_system_gsb.Common.{ℕ, String, Option, List, [], ◌∷◌, Distinct, Within}
use security_system_gsb.World.{World}
use security_system_gsb.Model.Alert.{CreateAlertRequest, UpdateAlertRequest, AddCommentRequest}
use security_system_gsb.Repository.Alerts.{alert_id}
use security_system_gsb.Service.Alerts.{create, update, assign, add_comment, run_sla_check}

-- Identifiers name one row each, and come from the sequence.
pub record WellFormed (w : World) : Type 0 where
  pub distinct : Distinct alert_id w.alerts
  pub issued : Within alert_id w.serials.alerts w.alerts

pub data Call : Type 0 where
  creates : CreateAlertRequest → ℕ → Call
  updates : ℕ → UpdateAlertRequest → ℕ → Call
  assigns : ℕ → ℕ → ℕ → Call
  comments : ℕ → ℕ → AddCommentRequest → Call
  checks_sla : Call
  waits : ℕ → List (Option String) → Call

unfoldable pub step : World → Call → World
step w (creates req creator) = (create req creator w).1
step w (updates id req operator) = (update id req operator w).1
step w (assigns id assignee operator) = (assign id assignee operator w).1
step w (comments id author req) = (add_comment id author req w).1
step w checks_sla = (run_sla_check w).1
step w (waits now faults) = record w { now = now; faults = faults }

unfoldable pub run : World → List Call → World
run w [] = w
run w (c ∷ cs) = run (step w c) cs
