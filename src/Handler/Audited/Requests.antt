-- ===== src/Handler/Audited/Requests.antt =====
-- `Requests`: the handlers that change something, by the rules of `Audited`.
use security_system_gsb.Common.{ℕ}
use security_system_gsb.Error.{Result}
use security_system_gsb.World.{World}
use security_system_gsb.World.Frames.{Core, Ends}
use security_system_gsb.Model.User.{CreateUserRequest, UpdateUserRequest, ChangePasswordRequest}
use security_system_gsb.Model.Role.{CreateRoleRequest, UpdateRolePermissionsRequest}
use security_system_gsb.Model.ApiKey.{CreateApiKeyRequest}
use security_system_gsb.Model.Alert.{CreateAlertRequest, UpdateAlertRequest}
use security_system_gsb.Pkg.Libraries.{Libraries}
use security_system_gsb.Http.{Context}
use security_system_gsb.Repository.Roles as RoleRows
use security_system_gsb.Service.Alerts as AlertService
use security_system_gsb.Service.ApiKeys as KeyService
use security_system_gsb.Service.Auth as Sessions
use security_system_gsb.Service.Auth.{AuthService}
use security_system_gsb.Service.Rbac.Frames.{create_role-Ends, update_role_permissions-Ends}
use security_system_gsb.Handler.Calls.{permits, rank_of}
use security_system_gsb.Handler.Alerts
use security_system_gsb.Handler.Alerts.{or_update_error, update_status}
use security_system_gsb.Handler.Users
use security_system_gsb.Handler.Users.{outranks, may_give}
use security_system_gsb.Handler.Auth
use security_system_gsb.Handler.Auth.{revoke_session}
use security_system_gsb.Handler.Admin
use security_system_gsb.Handler.ApiKeys
use security_system_gsb.Handler.Audited.{
  Audited, audited_rules, revoke_session-Denies, may_give-Denies, may_give-Ends,
}

module _ {P : Core → Type 0} (c : Context) (w : World) (h : Ends P w) where
  pub alerts_create-Audited :
      (body : Result CreateAlertRequest)
      → let out = Alerts.create body c w in Audited P c "create_alert" "alert" out.0.status out.1
  unfolding Alerts.create permits
  alerts_create-Audited body = search (audited_rules) depth 40 fits 6000

  pub alerts_update-Audited :
      (body : Result UpdateAlertRequest)
      → let out = Alerts.update body c w in Audited P c "update_alert" "alert" out.0.status out.1
  unfolding Alerts.update permits AlertService.get_by_id
  alerts_update-Audited body = search (audited_rules) depth 40 fits 6000

  pub alerts_assign-Audited :
      (body : Result ℕ)
      → let out = Alerts.assign body c w in Audited P c "assign_alert" "alert" out.0.status out.1
  unfolding Alerts.assign permits AlertService.get_by_id
  alerts_assign-Audited body = search (audited_rules) depth 40 fits 6000

  pub users_create-Audited :
      (lib : Libraries) (body : Result CreateUserRequest)
      → let out = Users.create lib body c w in Audited P c "create_user" "user" out.0.status out.1
  unfolding Users.create permits outranks rank_of
  users_create-Audited lib body = search (audited_rules) depth 40 fits 6000

  pub users_update-Audited :
      (body : Result UpdateUserRequest)
      → let out = Users.update body c w in Audited P c "update_user" "user" out.0.status out.1
  unfolding Users.update permits
  users_update-Audited body =
      search (audited_rules, may_give-Denies, may_give-Ends) depth 40 fits 6000

  pub apikeys_create-Audited :
      (lib : Libraries) (body : Result CreateApiKeyRequest)
      → let out = ApiKeys.create lib body c w in
        Audited P c "create_apikey" "apikey" out.0.status out.1
  unfolding ApiKeys.create
  apikeys_create-Audited lib body = search (audited_rules) depth 40 fits 6000

  pub apikeys_revoke-Audited :
      let out = ApiKeys.revoke c w in Audited P c "revoke_apikey" "apikey" out.0.status out.1
  unfolding ApiKeys.revoke KeyService.revoke
  apikeys_revoke-Audited = search (audited_rules) depth 40 fits 6000

  pub auth_logout-Audited :
      let out = Auth.logout c w in Audited P c "logout" "auth" out.0.status out.1
  unfolding Auth.logout
  auth_logout-Audited = search (audited_rules, revoke_session-Denies) depth 40 fits 6000

  pub auth_logout_all-Audited :
      let out = Auth.logout_all c w in Audited P c "logout_all" "auth" out.0.status out.1
  unfolding Auth.logout_all Sessions.logout_all
  auth_logout_all-Audited = search (audited_rules) depth 40 fits 6000

  pub auth_password-Audited :
      (lib : Libraries) (s : AuthService) (body : Result ChangePasswordRequest)
      → let out = Auth.change_password lib s body c w in
        Audited P c "change_password" "auth" out.0.status out.1
  unfolding Auth.change_password
  auth_password-Audited lib s body = search (audited_rules) depth 40 fits 6000

  pub admin_update_role_permissions-Audited :
      (body : Result UpdateRolePermissionsRequest)
      → let out = Admin.update_role_permissions body c w in
        Audited P c "update_role_permissions" "role" out.0.status out.1
  unfolding Admin.update_role_permissions
  admin_update_role_permissions-Audited body =
      search (audited_rules, update_role_permissions-Ends) depth 40 fits 6000

  pub admin_create_role-Audited :
      (creates : (req : CreateRoleRequest) (v : World)
        → Ends P v
        → Ends P (RoleRows.create req v).1)
      (body : Result CreateRoleRequest)
      → let out = Admin.create_role body c w in Audited P c "create_role" "role" out.0.status out.1
  unfolding Admin.create_role
  admin_create_role-Audited creates body =
      search (audited_rules, create_role-Ends creates) depth 40 fits 6000
