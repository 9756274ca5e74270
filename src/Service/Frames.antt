-- ===== src/Service/Frames.antt =====
-- `Frames`: the operations that leave the roles, the audit log and its channel alone.
use security_system_gsb.Common.{ℕ, String, List, [], ◌∷◌, Option, none, some}
use security_system_gsb.World.{World}
use security_system_gsb.World.Frames.{Core, Ends, ends_rules}
use security_system_gsb.Repository.Frames.{repository_rules}
use security_system_gsb.Repository.Paging.{paged}
use security_system_gsb.Repository.Users as UserRows
use security_system_gsb.Repository.Alerts as AlertRows
use security_system_gsb.Repository.Audits as AuditRows
use security_system_gsb.Model.User.{
  User, LoginRequest, ChangePasswordRequest, CreateUserRequest, UpdateUserRequest,
}
use security_system_gsb.Model.Session.{RefreshRequest}
use security_system_gsb.Model.Audit.{AuditQueryParams, AuditLogEntry}
use security_system_gsb.Model.ApiKey.{CreateApiKeyRequest}
use security_system_gsb.Model.Alert.{
  SecurityAlert, CreateAlertRequest, UpdateAlertRequest, AddCommentRequest, AlertQueryParams,
}
use security_system_gsb.Pkg.Libraries.{Libraries}
use security_system_gsb.Pkg.Crypto.{hash_password, generate_api_key}
use security_system_gsb.Service.Alerts
use security_system_gsb.Service.Audit
use security_system_gsb.Service.Auth
use security_system_gsb.Service.Auth.{AuthService}
use security_system_gsb.Service.Users
use security_system_gsb.Service.ApiKeys
use security_system_gsb.Service.Rbac
use security_system_gsb.Service.Rbac.Effects.{has_permission-Checked, role_rank-Checked}

module _ {P : Core → Type 0} where
  validate-Ends : (id : ℕ) (w : World) → Ends P w → Ends P (Alerts.validate_assignee id w).1
  unfolding Alerts.validate_assignee
  validate-Ends id w h = search (ends_rules, repository_rules)

  set_assignee-Ends :
      (a : SecurityAlert) (to : Option ℕ) (w : World)
      → Ends P w
      → Ends P (Alerts.set_assignee a to w).1
  unfolding Alerts.set_assignee
  set_assignee-Ends a none w h = h
  set_assignee-Ends a (some id) w h = search (ends_rules, repository_rules, validate-Ends)

  pub alert_create-Ends :
      (req : CreateAlertRequest) (by_ : ℕ) (w : World)
      → Ends P w
      → Ends P (Alerts.create req by_ w).1
  unfolding Alerts.create
  alert_create-Ends req by_ w h = search (ends_rules, repository_rules)

  pub alert_update-Ends :
      (id : ℕ) (req : UpdateAlertRequest) (by_ : ℕ) (w : World)
      → Ends P w
      → Ends P (Alerts.update id req by_ w).1
  unfolding Alerts.update
  alert_update-Ends id req by_ w h =
      search (ends_rules, repository_rules, set_assignee-Ends) depth 20

  pub alert_assign-Ends :
      (id to by_ : ℕ) (w : World) → Ends P w → Ends P (Alerts.assign id to by_ w).1
  unfolding Alerts.assign
  alert_assign-Ends id to by_ w h = search (ends_rules, repository_rules, validate-Ends) depth 20

  pub add_comment-Ends :
      (id by_ : ℕ) (req : AddCommentRequest) (w : World)
      → Ends P w
      → Ends P (Alerts.add_comment id by_ req w).1
  unfolding Alerts.add_comment
  add_comment-Ends id by_ req w h = search (ends_rules, repository_rules)

  pub alert_list-Ends : (q : AlertQueryParams) (w : World) → Ends P w → Ends P (Alerts.list q w).1
  unfolding Alerts.list AlertRows.list paged
  alert_list-Ends q w h = search ends_rules

  pub audit_list-Ends : (q : AuditQueryParams) (w : World) → Ends P w → Ends P (Audit.list q w).1
  unfolding Audit.list AuditRows.list paged
  audit_list-Ends q w h = search ends_rules

  pub user_list-Ends : (page size : ℕ) (w : World) → Ends P w → Ends P (Users.list page size w).1
  unfolding Users.list UserRows.list paged
  user_list-Ends page size w h = search ends_rules

  hash_password-Ends :
      (lib : Libraries) (text : String) (w : World) → Ends P w → Ends P (hash_password lib text w).1
  unfolding hash_password
  hash_password-Ends lib text w h = record { at = h.at }

  generate_api_key-Ends :
      (lib : Libraries) (w : World) → Ends P w → Ends P (generate_api_key lib w).1
  unfolding generate_api_key
  generate_api_key-Ends lib w h = search ends_rules

  pub user_create-Ends :
      (lib : Libraries) (req : CreateUserRequest) (w : World)
      → Ends P w
      → Ends P (Users.create lib req w).1
  unfolding Users.create
  user_create-Ends lib req w h = search (ends_rules, repository_rules, hash_password-Ends) depth 20

  invalidate-Ends : (id : ℕ) (w : World) → Ends P w → Ends P (Rbac.invalidate id w).1
  unfolding Rbac.invalidate
  invalidate-Ends id w h = record { at = h.at }

  pub user_update-Ends :
      (id : ℕ) (req : UpdateUserRequest) (w : World) → Ends P w → Ends P (Users.update id req w).1
  unfolding Users.update
  user_update-Ends id req w h = search (ends_rules, repository_rules, invalidate-Ends) depth 20

  pub key_create-Ends :
      (lib : Libraries) (owner : ℕ) (req : CreateApiKeyRequest) (w : World)
      → Ends P w
      → Ends P (ApiKeys.create lib owner req w).1
  unfolding ApiKeys.create ApiKeys.issue
  key_create-Ends lib owner req w h =
      search (ends_rules, repository_rules, generate_api_key-Ends) depth 20

  module _ (lib : Libraries) (s : AuthService) where
    issue-Ends :
        (u : User) (ip ua : String) (w : World)
        → Ends P w
        → Ends P (Auth.issue_tokens lib s u ip ua w).1
    unfolding Auth.issue_tokens
    issue-Ends u ip ua w h = search (ends_rules, repository_rules) depth 20

    check-Ends :
        (req : LoginRequest) (u : User) (w : World)
        → Ends P w
        → Ends P (Auth.check_credentials lib req u w).1
    unfolding Auth.check_credentials
    check-Ends req u w h = search (ends_rules, repository_rules) depth 20

    pub login-Ends :
        (req : LoginRequest) (ip ua : String) (w : World)
        → Ends P w
        → Ends P (Auth.login lib s req ip ua w).1
    unfolding Auth.login
    login-Ends req ip ua w h =
        search (ends_rules, repository_rules, check-Ends, issue-Ends) depth 20

    pub refresh-Ends :
        (req : RefreshRequest) (ip ua : String) (w : World)
        → Ends P w
        → Ends P (Auth.refresh lib s req ip ua w).1
    unfolding Auth.refresh
    refresh-Ends req ip ua w h = search (ends_rules, repository_rules, issue-Ends) depth 20

    pub change_password-Ends :
        (id : ℕ) (req : ChangePasswordRequest) (w : World)
        → Ends P w
        → Ends P (Auth.change_password lib s id req w).1
    unfolding Auth.change_password
    change_password-Ends id req w h =
        search (ends_rules, repository_rules, hash_password-Ends) depth 20

  pub has_permission-Ends :
      (role user : ℕ) (perm : String) (w : World)
      → Ends P w
      → Ends P (Rbac.has_permission role user perm w).1
  has_permission-Ends role user perm w h =
      let (b, v, run, kept) = has_permission-Checked role user perm w in
      rw (run, kept) (record { at = h.at })

  pub role_rank-Ends : (role : ℕ) (w : World) → Ends P w → Ends P (Rbac.role_rank role w).1
  role_rank-Ends role w h =
      let (n, v, run, kept) = role_rank-Checked role w in rw (run, kept) (record { at = h.at })

  -- The check of the time limits writes to the channel, as `logs` allows.
  module _ (logs : (e : AuditLogEntry) (w : World) → Ends P w → Ends P (Audit.log e w).1) where
    escalate-Ends : (a : SecurityAlert) (w : World) → Ends P w → Ends P (Alerts.escalate a w).1
    unfolding Alerts.escalate
    escalate-Ends a w h = search (ends_rules, repository_rules, logs) depth 20

    escalate_all-Ends :
        (as_ : List SecurityAlert) (w : World) → Ends P w → Ends P (Alerts.escalate_all as_ w).1
    unfolding Alerts.escalate_all
    escalate_all-Ends [] w h = h
    escalate_all-Ends (a ∷ rest) w h =
        search (ends_rules, escalate-Ends, escalate_all-Ends rest) depth 20

    escalate_targets-Ends : (w : World) → Ends P w → Ends P (Alerts.escalate_targets w).1
    unfolding Alerts.escalate_targets
    escalate_targets-Ends w h = search (ends_rules, repository_rules, escalate_all-Ends) depth 20

    pub run_sla_check-Ends : (w : World) → Ends P w → Ends P (Alerts.run_sla_check w).1
    unfolding Alerts.run_sla_check
    run_sla_check-Ends w h = search (ends_rules, repository_rules, escalate_targets-Ends) depth 20

pub ruleset service_rules = (
  alert_create-Ends, alert_update-Ends, alert_assign-Ends, add_comment-Ends, alert_list-Ends,
  audit_list-Ends, user_list-Ends, user_create-Ends, user_update-Ends, key_create-Ends, login-Ends,
  refresh-Ends, change_password-Ends, has_permission-Ends, role_rank-Ends,
)
