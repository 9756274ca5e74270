-- ===== src/Router.antt =====
-- api/router.go: the routes, each with its middleware and its handler. gin matches the method and
-- the path of a request; `Request` is a request that has been matched, with what binding has made
-- of its body or query.
pub mod Guards
pub mod Audited
pub mod Frames
pub mod System
pub mod Permissions
pub mod Sessions
use security_system_gsb.Common.{ℕ, String, Bool, true, false, Option, none, some, List, [], ◌∷◌}
use security_system_gsb.Error.{Result}
use security_system_gsb.World.{World}
use security_system_gsb.Model.User.{
  LoginRequest, ChangePasswordRequest, CreateUserRequest, UpdateUserRequest,
}
use security_system_gsb.Model.Session.{RefreshRequest}
use security_system_gsb.Model.Role.{
  CreateRoleRequest, UpdateRolePermissionsRequest, perm_apikey_manage, perm_role_read,
  perm_role_write, perm_audit_read,
}
use security_system_gsb.Model.Alert.{
  AlertQueryParams, CreateAlertRequest, UpdateAlertRequest, AddCommentRequest,
}
use security_system_gsb.Model.Audit.{AuditQueryParams}
use security_system_gsb.Model.ApiKey.{CreateApiKeyRequest}
use security_system_gsb.Pkg.Libraries.{Libraries}
use security_system_gsb.Service.Auth.{AuthService}
use security_system_gsb.Http.{Context, Handler, Response}
use security_system_gsb.Handler.Auth
use security_system_gsb.Handler.Alerts
use security_system_gsb.Handler.Users
use security_system_gsb.Handler.Admin
use security_system_gsb.Handler.ApiKeys
use security_system_gsb.Middleware.{jwt_auth, require_permission}

pub data Request : Type 0 where
  auth_login : Result LoginRequest → Request
  auth_refresh : Result RefreshRequest → Request
  auth_logout : Request
  auth_logout_all : Request
  auth_password : Result ChangePasswordRequest → Request
  alerts_list : Result AlertQueryParams → Request
  alerts_get : Request
  alerts_create : Result CreateAlertRequest → Request
  alerts_update : Result UpdateAlertRequest → Request
  alerts_assign : Result ℕ → Request
  alerts_comment : Result AddCommentRequest → Request
  users_list : Request
  users_get : Request
  users_create : Result CreateUserRequest → Request
  users_update : Result UpdateUserRequest → Request
  apikeys_list : Request
  apikeys_create : Result CreateApiKeyRequest → Request
  apikeys_revoke : Request
  admin_list_roles : Request
  admin_create_role : Result CreateRoleRequest → Request
  admin_get_role_permissions : Request
  admin_update_role_permissions : Result UpdateRolePermissionsRequest → Request
  admin_list_permissions : Request
  admin_list_audit_logs : Result AuditQueryParams → Request
  admin_verify_audit_chain : Request

-- Whether the route is in the group behind JWTAuth.
unfoldable pub is_public : Request → Bool
is_public (auth_login body) = true
is_public (auth_refresh body) = true
is_public _ = false

-- The permission of the route's RequirePermission.
unfoldable pub required : Request → Option String
required (apikeys_create body) = some perm_apikey_manage
required apikeys_revoke = some perm_apikey_manage
required admin_list_roles = some perm_role_read
required (admin_create_role body) = some perm_role_write
required admin_get_role_permissions = some perm_role_read
required (admin_update_role_permissions body) = some perm_role_write
required admin_list_permissions = some perm_role_read
required (admin_list_audit_logs query) = some perm_audit_read
required admin_verify_audit_chain = some perm_audit_read
required _ = none

abbrev pub behind_permission : Option String → Handler → Handler
behind_permission none h = h
behind_permission (some perm) h = require_permission perm h

module _ (lib : Libraries) (s : AuthService) where
  unfoldable pub handler : Request → Handler
  handler (auth_login body) = Auth.login lib s body
  handler (auth_refresh body) = Auth.refresh lib s body
  handler auth_logout = Auth.logout
  handler auth_logout_all = Auth.logout_all
  handler (auth_password body) = Auth.change_password lib s body
  handler (alerts_list query) = Alerts.list query
  handler alerts_get = Alerts.get
  handler (alerts_create body) = Alerts.create body
  handler (alerts_update body) = Alerts.update body
  handler (alerts_assign body) = Alerts.assign body
  handler (alerts_comment body) = Alerts.add_comment body
  handler users_list = Users.list
  handler users_get = Users.get
  handler (users_create body) = Users.create lib body
  handler (users_update body) = Users.update body
  handler apikeys_list = ApiKeys.list
  handler (apikeys_create body) = ApiKeys.create lib body
  handler apikeys_revoke = ApiKeys.revoke
  handler admin_list_roles = Admin.list_roles
  handler (admin_create_role body) = Admin.create_role body
  handler admin_get_role_permissions = Admin.get_role_permissions
  handler (admin_update_role_permissions body) = Admin.update_role_permissions body
  handler admin_list_permissions = Admin.list_permissions
  handler (admin_list_audit_logs query) = Admin.list_audit_logs query
  handler admin_verify_audit_chain = Admin.verify_audit_chain

  abbrev behind_jwt : Bool → Handler → Handler
  behind_jwt true h = h
  behind_jwt false h = jwt_auth lib s.jwt_access h

  unfoldable pub route : Request → Handler
  unfolding is_public required handler
  route r = behind_jwt (is_public r) (behind_permission (required r) (handler r))
