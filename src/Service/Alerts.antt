-- ===== src/Service/Alerts.antt =====
-- internal/service/alert_service.go
pub mod Updates
pub mod Status
pub mod Escalation
pub mod Sla
pub mod History
pub mod Rows
pub mod Identifiers
pub mod Lifetime
pub mod Overdue
pub mod Pages
use security_system_gsb.Common.{
  ℕ, suc, ◌+◌, ◌*◌, String, Bool, true, false, not, ◌&&◌, ◌||◌, Option, none, some, List, [], ◌∷◌,
  ltb, leb, ◌==◌, nat_eq, string_eq, if◌then◌else◌, contains,
}
use security_system_gsb.Error.{
  ◌++◌, format_int, Error, alert_not_found, invalid_transition, already_closed, errorf, wrap,
  is_not_found, Result, ok, err,
}
use security_system_gsb.World.{World, Exec, pure, raise, lift, gets, attempt, guard, ◌>>=◌, ◌>>◌}
use security_system_gsb.Model.User.{User, user_status_enabled}
use security_system_gsb.Model.Alert.{
  AlertQueryParams, SecurityAlert, AlertComment, CreateAlertRequest, UpdateAlertRequest,
  AddCommentRequest, severity_critical, status_new, status_assigned, status_processing,
  status_resolved, status_closed, status_escalated, sla_duration,
}
use security_system_gsb.Model.Audit.{audit_result_success}
use security_system_gsb.Repository.Users
use security_system_gsb.Repository.Alerts
use security_system_gsb.Repository.Paging.{Paged}
use security_system_gsb.Service.Audit

-- A status that is no key of the map has no transition.
unfoldable pub valid_transitions : ℕ → List ℕ
valid_transitions status =
    if status == status_new
    then status_assigned ∷ status_closed ∷ []
    else if status == status_assigned
    then status_processing ∷ status_closed ∷ []
    else if status == status_processing
    then status_resolved ∷ status_escalated ∷ status_closed ∷ []
    else if status == status_resolved
    then status_closed ∷ status_processing ∷ []
    else if status == status_escalated
    then status_assigned ∷ status_closed ∷ []
    else []

-- now + duration hours; the duration of a key that is missing is 0.
abbrev hours : Option ℕ → ℕ → ℕ
hours none default = default * 3600
hours (some h) default = h * 3600

abbrev pub deadline : ℕ → ℕ → ℕ → ℕ
deadline now severity default = now + hours (sla_duration severity) default

abbrev pub new_alert : ℕ → CreateAlertRequest → ℕ → SecurityAlert
new_alert now req creator = record {
  id = 0;
  title = req.title;
  description = req.description;
  source = req.source;
  severity = req.severity;
  status = status_new;
  assignee_id = none;
  creator_id = creator;
  sla_deadline = deadline now req.severity 72;
  sla_breached = false;
  escalation_count = 0;
  resolved_at = none;
  closed_at = none;
  tags = req.tags;
  created_at = 0;
  updated_at = 0;
}

unfoldable pub create : CreateAlertRequest → ℕ → Exec SecurityAlert
create req creator = do
  now ← gets (λ w. w.now)
  let alert = new_alert now req creator
  id ← Alerts.create alert
  pure (record alert { id = id })

unfoldable pub get_by_id : ℕ → Exec SecurityAlert
get_by_id id = Alerts.find_by_id id

-- `if errors.Is(err, ErrNotFound) { return e }; if err != nil { return err }`
abbrev pub or_missing {ℓ} : {A : Type ℓ} → Error → Result A → Result A
or_missing e (ok a) = ok a
or_missing e (err e') = err (if is_not_found e' then e else e')

unfoldable pub validate_assignee : ℕ → Exec (Unit {0})
validate_assignee id = do
  found ← attempt (Users.find_by_id id)
  user ← lift (or_missing (errorf ("被指派用户不存在: " ++ format_int id)) found)
  guard (user.status == user_status_enabled) (errorf ("被指派用户已被禁用: " ++ user.username))

-- Whether the request asks for no other status, or for one that the table allows.
unfoldable pub transition_allowed : SecurityAlert → UpdateAlertRequest → Bool
transition_allowed alert req =
    not (ltb 0 req.status && not (req.status == alert.status))
    || contains req.status (valid_transitions alert.status)

abbrev transition_error : SecurityAlert → UpdateAlertRequest → Error
transition_error alert req =
    wrap "" invalid_transition (": 从 " ++ format_int alert.status ++ " 到 " ++ format_int req.status)

unfoldable pub set_texts : SecurityAlert → UpdateAlertRequest → SecurityAlert
set_texts alert req = record alert {
  title = if req.title == "" then alert.title else req.title;
  description = if req.description == "" then alert.description else req.description;
}

-- A higher severity starts the time limit anew.
unfoldable pub set_severity : ℕ → SecurityAlert → UpdateAlertRequest → SecurityAlert
set_severity now alert req =
    if ltb 0 req.severity && not (req.severity == alert.severity)
    then (if ltb alert.severity req.severity
        then record alert {
          sla_deadline = deadline now req.severity 0;
          sla_breached = false;
          severity = req.severity;
        }
        else record alert { severity = req.severity })
    else alert

unfoldable pub assigned_to : ℕ → SecurityAlert → SecurityAlert
assigned_to id alert = record alert {
  assignee_id = some id;
  status = if alert.status == status_new then status_assigned else alert.status;
}

unfoldable pub set_assignee : SecurityAlert → Option ℕ → Exec SecurityAlert
unfolding assigned_to
set_assignee alert none = pure alert
set_assignee alert (some id) = do validate_assignee id; pure (assigned_to id alert)

unfoldable pub set_status : ℕ → SecurityAlert → ℕ → SecurityAlert
set_status now alert status =
    if ltb 0 status
    then record alert {
      status = status;
      resolved_at = if status == status_resolved then some now else alert.resolved_at;
      closed_at = if status == status_closed then some now else alert.closed_at;
    }
    else alert

unfoldable pub update : ℕ → UpdateAlertRequest → ℕ → Exec (Unit {0})
update id req operator = do
  found ← attempt (Alerts.find_by_id id)
  alert ← lift (or_missing alert_not_found found)
  guard (not (alert.status == status_closed)) already_closed
  guard (transition_allowed alert req) (transition_error alert req)
  now ← gets (λ w. w.now)
  changed ← set_assignee (set_severity now (set_texts alert req) req) req.assignee_id
  Alerts.update id (set_status now changed req.status)

unfoldable pub assign : ℕ → ℕ → ℕ → Exec (Unit {0})
assign id assignee operator = do
  found ← attempt (Alerts.find_by_id id)
  alert ← lift (or_missing alert_not_found found)
  guard (not (alert.status == status_closed)) already_closed
  validate_assignee assignee
  Alerts.update id (record alert { assignee_id = some assignee; status = status_assigned })

-- Any error of the lookup is reported as a missing alert.
abbrev or_alert_not_found {ℓ} : {A : Type ℓ} → Result A → Result A
or_alert_not_found (ok a) = ok a
or_alert_not_found (err e) = err alert_not_found

unfoldable pub add_comment : ℕ → ℕ → AddCommentRequest → Exec AlertComment
add_comment id author req = do
  found ← attempt (Alerts.find_by_id id)
  alert ← lift (or_alert_not_found found)
  let comment : AlertComment = record {
    id = 0;
    alert_id = id;
    author_id = author;
    content = req.content;
    created_at = 0;
  }
  comment_id ← Alerts.add_comment comment
  pure (record comment { id = comment_id })

unfoldable pub list_comments : ℕ → Exec (List AlertComment)
list_comments id = Alerts.list_comments id

abbrev pub has_assignee : SecurityAlert → Bool
has_assignee a = elim a.assignee_id [ none ↦ false | some id ↦ true ]

-- The changes that `escalate` makes to the struct before it writes it.
unfoldable pub raise_severity : ℕ → SecurityAlert → SecurityAlert
raise_severity now a =
    if ltb a.severity severity_critical
    then record a {
      severity = suc (a.severity);
      sla_deadline = deadline now (suc (a.severity)) 0;
      sla_breached = false;
    }
    else a

unfoldable pub mark_escalated : SecurityAlert → SecurityAlert
mark_escalated a =
    if leb 3 a.escalation_count && not (has_assignee a)
    then record a { status = status_escalated }
    else a

unfoldable pub escalated : ℕ → SecurityAlert → SecurityAlert
unfolding raise_severity mark_escalated
escalated now a =
    mark_escalated (raise_severity now (record a { escalation_count = suc (a.escalation_count) }))

abbrev escalation_detail : SecurityAlert → String
escalation_detail a =
    "SLA违规，第" ++ format_int a.escalation_count ++ "次上报，严重等级调整为" ++ format_int a.severity

unfoldable pub escalate : SecurityAlert → Exec (Unit {0})
unfolding escalated
escalate alert = do
  now ← gets (λ w. w.now)
  let alert' = escalated now alert
  written ← attempt (Alerts.update alert'.id alert')
  Audit.log (record {
    user_id = 0;
    username = "system";
    action = "escalate_alert";
    resource = "alert";
    resource_id = format_int alert'.id;
    detail = escalation_detail alert';
    ip_address = "";
    user_agent = "";
    result = audit_result_success;
  })

unfoldable pub escalate_all : List SecurityAlert → Exec (Unit {0})
escalate_all [] = pure tt
escalate_all (a ∷ rest) = do escalate a; escalate_all rest

abbrev wrapped {ℓ} : {A : Type ℓ} → String → Result A → Result A
wrapped text (ok a) = ok a
wrapped text (err e) = err (wrap (text ++ ": ") e "")

unfoldable pub escalate_targets : Exec (Unit {0})
escalate_targets = do
  found ← attempt Alerts.find_sla_breached_unnotified
  targets ← lift (wrapped "查询待上报告警失败" found)
  escalate_all targets

unfoldable pub run_sla_check : Exec (Unit {0})
run_sla_check = do
  marked ← attempt Alerts.check_and_mark_sla_breaches
  breached ← lift (wrapped "SLA违规标记失败" marked)
  if breached == 0 then pure tt else escalate_targets

unfoldable pub list : AlertQueryParams → Exec (Paged SecurityAlert)
list q = Alerts.list q
