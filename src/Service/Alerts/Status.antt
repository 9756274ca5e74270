-- ===== src/Service/Alerts/Status.antt =====
-- The life of an alert, described apart from the code.
use security_system_gsb.Common.{
  ℕ, ◌≡◌, ◌≢◌, refl, true, ◌⊎◌, inl, inr, some, arith, find, has_key, contains, nat_eq,
  find-update_key,
}
use security_system_gsb.Error.{ok}
use security_system_gsb.World.{World}
use security_system_gsb.Model.Alert.{
  SecurityAlert, UpdateAlertRequest, status_new, status_assigned, status_processing,
  status_resolved, status_closed, status_escalated,
}
use security_system_gsb.Repository.Alerts.{alert_id, assign_columns, scanned}
use security_system_gsb.Service.Alerts.{
  update, assigned_to, set_status, set_severity, set_texts, transition_allowed, valid_transitions,
}
use security_system_gsb.Service.Alerts.Updates.{updated, update_ok}

-- How a status may change by `Update`: it stays, or it takes one step of the life cycle.
pub data Flow (old new : ℕ) : Type 0 where
  stay : new ≡ old → Flow old new
  hand_out : old ≡ status_new → new ≡ status_assigned → Flow old new
  start : old ≡ status_assigned → new ≡ status_processing → Flow old new
  resolve : old ≡ status_processing → new ≡ status_resolved → Flow old new
  report : old ≡ status_processing → new ≡ status_escalated → Flow old new
  resume : old ≡ status_resolved → new ≡ status_processing → Flow old new
  hand_back : old ≡ status_escalated → new ≡ status_assigned → Flow old new
  close : old ≢ status_closed → new ≡ status_closed → Flow old new

Flow-allowed : (old new : ℕ) → contains new (valid_transitions old) ≡ true → Flow old new
unfolding contains valid_transitions
Flow-allowed old new h = grind (arith, hand_out, start, resolve, report, resume, hand_back, close)

updated_cases :
    (now : ℕ) (a : SecurityAlert) (req : UpdateAlertRequest)
    → transition_allowed a req ≡ true
    → let new = (updated now a req).status in
      (new ≡ a.status)
      ⊎ ((a.status ≡ status_new) × (new ≡ status_assigned)
          ⊎ (contains new (valid_transitions a.status) ≡ true))
unfolding updated transition_allowed set_status set_severity set_texts assigned_to
updated_cases now a req h = ground arith

pub updated-Flow :
    (now : ℕ) (a : SecurityAlert) (req : UpdateAlertRequest)
    → transition_allowed a req ≡ true
    → Flow a.status (updated now a req).status
updated-Flow now a req h = elim (updated_cases now a req h) [
  | inl same ↦ stay same
  | inr (inl (new, assigned)) ↦ hand_out new assigned
  | inr (inr allowed) ↦ Flow-allowed _ _ allowed
]

-- After an `Update` that succeeds, the alert is stored with its old status or with one that the
-- life cycle reaches from it in one step, and it was not closed before. Any statement may fail.
pub update-Flow :
    (id : ℕ) (req : UpdateAlertRequest) (op : ℕ) (w : World) (a : SecurityAlert)
    → find (has_key alert_id id) w.alerts ≡ some a
    → (update id req op w).0 ≡ ok tt
    → (b : SecurityAlert) × (find (has_key alert_id id) (update id req op w).1.alerts ≡ some b)
      × Flow a.status b.status
      × (a.status ≢ status_closed)
unfolding assign_columns
update-Flow id req op w a f e =
    let (not_closed, allowed, rows) = update_ok id req op w a f e in
    (
      assign_columns w.now (updated w.now (scanned a) req) a,
      rw rows (
          ground (
            arith,
            find-update_key alert_id (assign_columns w.now (updated w.now (scanned a) req))
                (λ r. refl) id id w.alerts,
          )),
      updated-Flow w.now (scanned a) req allowed,
      not_closed,
    )
