-- ===== src/Service/Alerts/Updates.antt =====
-- `Update` and `Assign`: what a call that succeeds writes, and that one that fails writes nothing.
use security_system_gsb.Common.{
  ℕ, ◌≡◌, ◌≢◌, Option, none, some, true, arith, find, has_key, update_where, inl, inr, Option-cases,
}
use security_system_gsb.Error.{Error, ok, err}
use security_system_gsb.World.{World, statement}
use security_system_gsb.Model.User.{User, user_status_enabled}
use security_system_gsb.Model.Alert.{
  SecurityAlert, UpdateAlertRequest, status_assigned, status_closed,
}
use security_system_gsb.Repository.Alerts.{alert_id, assign_columns, scanned}
use security_system_gsb.Repository.Alerts
use security_system_gsb.Repository.Users.{user_id}
use security_system_gsb.Repository.Users
use security_system_gsb.Service.Alerts.{
  update, assign, validate_assignee, set_assignee, assigned_to, set_status, set_severity, set_texts,
  transition_allowed,
}

with_assignee : Option ℕ → SecurityAlert → SecurityAlert
with_assignee none a = a
with_assignee (some id) a = assigned_to id a

-- The struct that `Update` hands to the repository.
unfoldable pub updated : ℕ → SecurityAlert → UpdateAlertRequest → SecurityAlert
unfolding with_assignee
updated now a req =
    set_status now (with_assignee req.assignee_id (set_severity now (set_texts a req) req))
      req.status

abbrev pub Written : ℕ → World → SecurityAlert → World → Type 0
Written id w a w' = w'.alerts ≡ update_where (has_key alert_id id) (assign_columns w.now a) w.alerts

unfoldable pub calls : Unit {0}
unfolding statement Alerts.find_by_id Alerts.update Users.find_by_id update assign set_assignee
    validate_assignee updated
calls = tt

module _ (id : ℕ) (req : UpdateAlertRequest) (op : ℕ) (w : World) where
  pub update_ok :
      (a : SecurityAlert)
      → find (has_key alert_id id) w.alerts ≡ some a
      → (update id req op w).0 ≡ ok tt
      → (a.status ≢ status_closed)
        × (transition_allowed (scanned a) req ≡ true)
        × Written id w (updated w.now (scanned a) req) (update id req op w).1
  unfolding calls
  update_ok a f e = ground arith

  pub update_err :
      {x : Error} → (update id req op w).0 ≡ err x → (update id req op w).1.alerts ≡ w.alerts
  unfolding calls
  update_err e = ground arith

  pub update_found :
      (update id req op w).0 ≡ ok tt
      → (a : SecurityAlert) × (find (has_key alert_id id) w.alerts ≡ some a)
  unfolding calls
  update_found e = ground arith

module _ (id assignee op : ℕ) (w : World) where
  pub assign_ok :
      (a : SecurityAlert)
      → find (has_key alert_id id) w.alerts ≡ some a
      → (assign id assignee op w).0 ≡ ok tt
      → (a.status ≢ status_closed)
        × Written id w
            (record (scanned a) { assignee_id = some assignee; status = status_assigned })
            (assign id assignee op w).1
  unfolding calls
  assign_ok a f e = ground arith

  pub assign_err :
      {x : Error}
      → (assign id assignee op w).0 ≡ err x
      → (assign id assignee op w).1.alerts ≡ w.alerts
  unfolding calls
  assign_err e = ground arith

  pub assign_found :
      (assign id assignee op w).0 ≡ ok tt
      → (a : SecurityAlert) × (find (has_key alert_id id) w.alerts ≡ some a)
  unfolding calls
  assign_found e = ground arith

  -- Only an enabled user is assigned.
  pub assign_enabled :
      (assign id assignee op w).0 ≡ ok tt
      → (u : User) × (find (has_key user_id assignee) w.users ≡ some u)
        × (u.status ≡ user_status_enabled)
  unfolding calls
  assign_enabled e = elim (Option-cases (find (has_key user_id assignee) w.users)) [
    | inl missing ↦ absurd (ground arith)
    | inr (u, found) ↦ (u, found, ground arith)
  ]
