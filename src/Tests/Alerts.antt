-- ===== src/Tests/Alerts.antt =====
-- The alert service on the world of `Data`.
use security_system_gsb.Common.{
  ◌≡◌, ◌≢◌, refl, true, none, some, List, [], ◌∷◌, arith, find, has_key, any_where,
}
use security_system_gsb.Error.{ok}
use security_system_gsb.Model.Alert.{SecurityAlert, UpdateAlertRequest, status_closed}
use security_system_gsb.World.{statement}
use security_system_gsb.Repository.Alerts.{alert_id, is_overdue}
use security_system_gsb.Service.Alerts.{
  update, run_sla_check, transition_allowed, set_texts, set_severity, set_assignee,
  validate_assignee, assigned_to, set_status,
}
use security_system_gsb.Repository.Alerts
use security_system_gsb.Repository.Users
use security_system_gsb.Service.Alerts.Escalation.{Stored}
use security_system_gsb.Service.Alerts.History.{
  WellFormed, Call, updates, assigns, checks_sla, waits, step, run,
}
use security_system_gsb.Service.Alerts.Status.{Flow, update-Flow}
use security_system_gsb.Service.Alerts.Rows.{RowAfter, step-RowStep}
use security_system_gsb.Service.Alerts.Lifetime.{run_deadline, run_closed}
use security_system_gsb.Service.Alerts.Overdue.{run_sla_check-overdue}
use security_system_gsb.Tests.Data.{world, alert}

abbrev taking_on : UpdateAlertRequest
taking_on = record {
  title = "";
  description = "";
  severity = 3;
  status = 0;
  assignee_id = some 1;
  tags = [];
}

abbrev calls : List Call
calls = updates 1 taking_on 1 ∷ waits 200 (some "timeout" ∷ []) ∷ checks_sla ∷ assigns 2 1 1 ∷ []

world-WellFormed : WellFormed world
world-WellFormed = record { distinct = ground arith; issued = ground arith }

one-Stored : Stored 1 (alert 1 1) world
unfolding find
one-Stored = refl

two-Stored : Stored 2 (alert 2 5) world
unfolding find
two-Stored = refl

update_runs : (update 1 taking_on 1 world).0 ≡ ok tt
unfolding update Alerts.find_by_id statement find transition_allowed set_texts set_severity
    set_assignee validate_assignee Users.find_by_id assigned_to set_status Alerts.update any_where
update_runs = refl

update-Flow_example :
    (b : SecurityAlert) × (find (has_key alert_id 1) (update 1 taking_on 1 world).1.alerts ≡ some b)
    × Flow 1 b.status
    × (1 ≢ status_closed)
update-Flow_example = update-Flow 1 taking_on 1 world (alert 1 1) one-Stored update_runs

step-RowStep_example : RowAfter 1 (alert 1 1) (step world checks_sla)
step-RowStep_example = step-RowStep 1 (alert 1 1) world checks_sla world-WellFormed one-Stored

run_deadline_example :
    (b : SecurityAlert) × Stored 1 b (run world calls)
    × (b.sla_deadline ≡ 50)
    × (b.creator_id ≡ 1)
    × (b.source ≡ "ids")
run_deadline_example = run_deadline 1 calls world (alert 1 1) world-WellFormed one-Stored

run_closed_example : Stored 2 (alert 2 5) (run world calls)
run_closed_example = run_closed 2 calls world (alert 2 5) world-WellFormed two-Stored refl

due : is_overdue 100 (alert 1 1) ≡ true
due = refl

run_sla_check-overdue_example :
    (b : SecurityAlert) × Stored 1 b (run_sla_check world).1
    × (b.severity ≡ 3)
    × (b.escalation_count ≡ 3)
    × (b.status ≡ 6)
    × (b.sla_deadline ≡ 50)
    × (b.description ≡ "")
    × (b.resolved_at ≡ none)
    × (b.closed_at ≡ none)
    × (is_overdue 100 b ≡ true)
run_sla_check-overdue_example =
    run_sla_check-overdue 1 (alert 1 1) world world-WellFormed one-Stored refl due refl
