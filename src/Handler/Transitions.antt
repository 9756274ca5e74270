-- ===== src/Handler/Transitions.antt =====
-- `Transitions`: what the update of an alert answers to a change of status that is not allowed.
use security_system_gsb.Common.{
  ℕ, ◌≡◌, ◌≤◌, ◌≢◌, refl, ap, sym, ◌∙◌, true, false, [], some, arith, ltb, ◌==◌, nat_eq, find,
  has_key, String,
}
use security_system_gsb.Error.{◌++◌, wrap, invalid_transition, format_int, ok, err}
use security_system_gsb.World.{World, statement}
use security_system_gsb.World.Statements.{with_faults}
use security_system_gsb.Model.Alert.{SecurityAlert, UpdateAlertRequest, status_closed}
use security_system_gsb.Model.Role.{perm_alert_write}
use security_system_gsb.Http.{Context, caller_id, caller_role, status_internal_error}
use security_system_gsb.Strconv.{ℤ, to_nat, parse_int}
use security_system_gsb.Repository.Alerts as Rows
use security_system_gsb.Repository.Alerts.{alert_id, scanned}
use security_system_gsb.Service.Alerts as Service
use security_system_gsb.Service.Alerts.{transition_allowed}
use security_system_gsb.Service.Rbac.{has_permission}
use security_system_gsb.Service.Rbac.Ranks.{has_permission_quiet}
use security_system_gsb.Handler.Calls.{permits}
use security_system_gsb.Handler.Alerts

scanned_allows :
    (a : SecurityAlert) (req : UpdateAlertRequest)
    → transition_allowed a req ≡ false
    → transition_allowed (scanned a) req ≡ false
unfolding transition_allowed
scanned_allows a req illegal = illegal

-- What the service answers.
refusal :
    (id operator : ℕ) (req : UpdateAlertRequest) (a : SecurityAlert) (w : World)
    → find (has_key alert_id id) w.alerts ≡ some a
    → (a.status == status_closed) ≡ false
    → transition_allowed (scanned a) req ≡ false
    → (before after : String) × (Service.update id req operator (with_faults w [])
        ≡ (err (wrap before invalid_transition after), with_faults w []))
unfolding Service.update Rows.find_by_id statement
refusal id operator req a w found not_closed illegal = (
  "",
  ": 从 " ++ format_int a.status ++ " 到 " ++ format_int req.status,
  rw (found, not_closed, illegal),
)

-- Where the database answers, a change of the status that the life cycle does not allow, asked
-- for by a caller with the permission to write, of a stored alert that is not closed and without
-- a higher severity, is answered with 500, the code of an internal error, and leaves the alerts
-- as they are.
pub update_transition :
    (req : UpdateAlertRequest) (c : Context) (w : World) (id : ℤ) (a : SecurityAlert)
    → w.faults ≡ []
    → (has_permission (caller_role c) (caller_id c) perm_alert_write w).0 ≡ ok true
    → parse_int c.id_param ≡ some id
    → find (has_key alert_id (to_nat id)) w.alerts ≡ some a
    → a.status ≢ status_closed
    → req.severity ≤ a.severity
    → transition_allowed a req ≡ false
    → let (answer, v) = Alerts.update (ok req) c w in
      (answer.status ≡ status_internal_error) × (v.alerts ≡ w.alerts)
unfolding Alerts.update permits Service.get_by_id Service.update Rows.find_by_id statement
update_transition req c w id a f held parsed found not_done same illegal =
    let (b, cache, run) = has_permission_quiet (caller_role c) (caller_id c) perm_alert_write w f in
    let yes_ : b ≡ true = cc (held, run) in
    let again =
      ap (λ fs. has_permission (caller_role c) (caller_id c) perm_alert_write (with_faults w fs))
        (sym f)
      ∙ run in
    let not_closed : (a.status == status_closed) ≡ false = ground arith in
    let not_higher : ltb a.severity req.severity ≡ false = ground arith in
    let v = record w { perm_cache = cache; faults = [] } in
    let (before, after, refused) =
      refusal (to_nat id) (caller_id c) req a v found not_closed (scanned_allows a req illegal) in
    rw (f, parsed, found, not_closed, again, yes_, not_higher, refused) (refl, refl)
