-- ===== src/Handler/Frames/Requests.antt =====
-- `Requests`: the handlers, by the rules of `Frames`.
use security_system_gsb.Common.{ℕ}
use security_system_gsb.Error.{Result, ok, err}
use security_system_gsb.World.{World}
use security_system_gsb.World.Frames.{Core, Ends}
use security_system_gsb.Model.User.{
  LoginRequest, ChangePasswordRequest, CreateUserRequest, UpdateUserRequest,
}
use security_system_gsb.Model.Session.{RefreshRequest}
use security_system_gsb.Model.Role.{CreateRoleRequest, UpdateRolePermissionsRequest}
use security_system_gsb.Model.Audit.{AuditLogEntry, AuditQueryParams}
use security_system_gsb.Model.ApiKey.{CreateApiKeyRequest}
use security_system_gsb.Model.Alert.{
  CreateAlertRequest, UpdateAlertRequest, AddCommentRequest, AlertQueryParams,
}
use security_system_gsb.Pkg.Libraries.{Libraries}
use security_system_gsb.Http.{Context}
use security_system_gsb.Repository.Roles as RoleRows
use security_system_gsb.Service.Audit as AuditService
use security_system_gsb.Service.Alerts as AlertService
use security_system_gsb.Service.Users as UserService
use security_system_gsb.Service.ApiKeys as KeyService
use security_system_gsb.Service.Auth as Sessions
use security_system_gsb.Service.Auth.{AuthService, LoggedIn}
use security_system_gsb.Service.Rbac
use security_system_gsb.Service.Rbac.Frames.{create_role-Ends, update_role_permissions-Ends}
use security_system_gsb.Handler.Calls.{permits}
use security_system_gsb.Handler.Alerts
use security_system_gsb.Handler.Alerts.{may_update, may_raise, may_take, or_update_error}
use security_system_gsb.Handler.Users
use security_system_gsb.Handler.Users.{outranks}
use security_system_gsb.Handler.Auth
use security_system_gsb.Handler.Auth.{answer_login, revoke_session}
use security_system_gsb.Handler.Admin
use security_system_gsb.Handler.Admin.{verify_last}
use security_system_gsb.Handler.ApiKeys
use security_system_gsb.Handler.Frames.{handler_rules, part_rules}

module _ {P : Core → Type 0} where
  pub alerts_list-Ends :
      (q : Result AlertQueryParams) (c : Context) (w : World)
      → Ends P w
      → Ends P (Alerts.list q c w).1
  unfolding Alerts.list permits
  alerts_list-Ends q c w h = search (handler_rules, part_rules) depth 40 fits 4000

  pub alerts_get-Ends : (c : Context) (w : World) → Ends P w → Ends P (Alerts.get c w).1
  unfolding Alerts.get permits AlertService.get_by_id AlertService.list_comments
  alerts_get-Ends c w h = search (handler_rules, part_rules) depth 40 fits 4000

  pub alerts_add_comment-Ends :
      (body : Result AddCommentRequest) (c : Context) (w : World)
      → Ends P w
      → Ends P (Alerts.add_comment body c w).1
  unfolding Alerts.add_comment permits AlertService.get_by_id
  alerts_add_comment-Ends body c w h = search (handler_rules, part_rules) depth 40 fits 4000

  pub users_list-Ends : (c : Context) (w : World) → Ends P w → Ends P (Users.list c w).1
  unfolding Users.list permits
  users_list-Ends c w h = search (handler_rules, part_rules) depth 40 fits 4000

  pub users_get-Ends : (c : Context) (w : World) → Ends P w → Ends P (Users.get c w).1
  unfolding Users.get permits UserService.get_by_id
  users_get-Ends c w h = search (handler_rules, part_rules) depth 40 fits 4000

  pub apikeys_list-Ends : (c : Context) (w : World) → Ends P w → Ends P (ApiKeys.list c w).1
  unfolding ApiKeys.list KeyService.list_by_owner
  apikeys_list-Ends c w h = search (handler_rules, part_rules) depth 40 fits 4000

  pub admin_list_roles-Ends : (c : Context) (w : World) → Ends P w → Ends P (Admin.list_roles c w).1
  unfolding Admin.list_roles Rbac.list_roles
  admin_list_roles-Ends c w h = search (handler_rules, part_rules) depth 40 fits 4000

  pub admin_list_permissions-Ends :
      (c : Context) (w : World) → Ends P w → Ends P (Admin.list_permissions c w).1
  unfolding Admin.list_permissions Rbac.list_permissions
  admin_list_permissions-Ends c w h = search (handler_rules, part_rules) depth 40 fits 4000

  pub admin_get_role_permissions-Ends :
      (c : Context) (w : World) → Ends P w → Ends P (Admin.get_role_permissions c w).1
  unfolding Admin.get_role_permissions Rbac.get_role_permissions
  admin_get_role_permissions-Ends c w h = search (handler_rules, part_rules) depth 40 fits 4000

  pub admin_list_audit_logs-Ends :
      (q : Result AuditQueryParams) (c : Context) (w : World)
      → Ends P w
      → Ends P (Admin.list_audit_logs q c w).1
  unfolding Admin.list_audit_logs
  admin_list_audit_logs-Ends q c w h = search (handler_rules, part_rules) depth 40 fits 4000

  pub admin_verify_audit_chain-Ends :
      (c : Context) (w : World) → Ends P w → Ends P (Admin.verify_audit_chain c w).1
  unfolding Admin.verify_audit_chain
  admin_verify_audit_chain-Ends c w h = search (handler_rules, part_rules) depth 40 fits 4000

  pub auth_refresh-Ends :
      (lib : Libraries) (s : AuthService) (body : Result RefreshRequest) (c : Context) (w : World)
      → Ends P w
      → Ends P (Auth.refresh lib s body c w).1
  unfolding Auth.refresh
  auth_refresh-Ends lib s body c w h = search (handler_rules, part_rules) depth 40 fits 4000

  module _
      (logs : (e : AuditLogEntry) (w : World) → Ends P w → Ends P (AuditService.log e w).1) where
    pub alerts_create-Ends :
        (body : Result CreateAlertRequest) (c : Context) (w : World)
        → Ends P w
        → Ends P (Alerts.create body c w).1
    unfolding Alerts.create permits
    alerts_create-Ends body c w h = search (handler_rules, part_rules, logs) depth 40 fits 4000

    pub alerts_update-Ends :
        (body : Result UpdateAlertRequest) (c : Context) (w : World)
        → Ends P w
        → Ends P (Alerts.update body c w).1
    unfolding Alerts.update permits AlertService.get_by_id
    alerts_update-Ends body c w h = search (handler_rules, part_rules, logs) depth 40 fits 4000

    pub alerts_assign-Ends :
        (body : Result ℕ) (c : Context) (w : World) → Ends P w → Ends P (Alerts.assign body c w).1
    unfolding Alerts.assign permits AlertService.get_by_id
    alerts_assign-Ends body c w h = search (handler_rules, part_rules, logs) depth 40 fits 4000

    pub users_create-Ends :
        (lib : Libraries) (body : Result CreateUserRequest) (c : Context) (w : World)
        → Ends P w
        → Ends P (Users.create lib body c w).1
    unfolding Users.create permits
    users_create-Ends lib body c w h = search (handler_rules, part_rules, logs) depth 40 fits 4000

    pub users_update-Ends :
        (body : Result UpdateUserRequest) (c : Context) (w : World)
        → Ends P w
        → Ends P (Users.update body c w).1
    unfolding Users.update permits
    users_update-Ends body c w h = search (handler_rules, part_rules, logs) depth 40 fits 4000

    pub apikeys_create-Ends :
        (lib : Libraries) (body : Result CreateApiKeyRequest) (c : Context) (w : World)
        → Ends P w
        → Ends P (ApiKeys.create lib body c w).1
    unfolding ApiKeys.create
    apikeys_create-Ends lib body c w h = search (handler_rules, part_rules, logs) depth 40 fits 4000

    pub apikeys_revoke-Ends : (c : Context) (w : World) → Ends P w → Ends P (ApiKeys.revoke c w).1
    unfolding ApiKeys.revoke KeyService.revoke
    apikeys_revoke-Ends c w h = search (handler_rules, part_rules, logs) depth 40 fits 4000

    pub auth_logout-Ends : (c : Context) (w : World) → Ends P w → Ends P (Auth.logout c w).1
    unfolding Auth.logout
    auth_logout-Ends c w h = search (handler_rules, part_rules, logs) depth 40 fits 4000

    pub auth_logout_all-Ends : (c : Context) (w : World) → Ends P w → Ends P (Auth.logout_all c w).1
    unfolding Auth.logout_all Sessions.logout_all
    auth_logout_all-Ends c w h = search (handler_rules, part_rules, logs) depth 40 fits 4000

    pub auth_change_password-Ends :
        (lib : Libraries) (s : AuthService) (body : Result ChangePasswordRequest) (c : Context)
        (w : World)
        → Ends P w
        → Ends P (Auth.change_password lib s body c w).1
    unfolding Auth.change_password
    auth_change_password-Ends lib s body c w h =
        search (handler_rules, part_rules, logs) depth 40 fits 4000

    answer_login-Ends :
        (req : LoginRequest) (c : Context) (r : Result LoggedIn) (w : World)
        → Ends P w
        → Ends P (answer_login req c r w).1
    answer_login-Ends req c (err e) w h = search (handler_rules, logs)
    answer_login-Ends req c (ok in_) w h = search (handler_rules, logs)

    pub auth_login-Ends :
        (lib : Libraries) (s : AuthService) (body : Result LoginRequest) (c : Context) (w : World)
        → Ends P w
        → Ends P (Auth.login lib s body c w).1
    unfolding Auth.login
    auth_login-Ends lib s body c w h =
        search (handler_rules, part_rules, answer_login-Ends) depth 40 fits 4000

    pub admin_create_role-Ends :
        ((req : CreateRoleRequest) (v : World) → Ends P v → Ends P (RoleRows.create req v).1)
        → (body : Result CreateRoleRequest) (c : Context) (w : World) → Ends P w
        → Ends P (Admin.create_role body c w).1
    unfolding Admin.create_role
    admin_create_role-Ends creates body c w h =
        search (handler_rules, create_role-Ends creates, logs) depth 40

    pub admin_update_role_permissions-Ends :
        (body : Result UpdateRolePermissionsRequest) (c : Context) (w : World)
        → Ends P w
        → Ends P (Admin.update_role_permissions body c w).1
    unfolding Admin.update_role_permissions
    admin_update_role_permissions-Ends body c w h =
        search (handler_rules, update_role_permissions-Ends, logs) depth 40
