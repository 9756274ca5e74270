-- ===== src/Handler/Frames.antt =====
-- `Frames`: what the handlers keep, where the calls of the services keep it.
pub mod Requests
use security_system_gsb.Common.{ℕ, String, Bool, true, false, Option, none, some}
use security_system_gsb.Error.{Result, ok, err, not_found}
use security_system_gsb.World.{World}
use security_system_gsb.World.Frames.{Core, Ends, ends_rules}
use security_system_gsb.Model.User.{
  LoginRequest, ChangePasswordRequest, CreateUserRequest, UpdateUserRequest,
}
use security_system_gsb.Model.Session.{RefreshRequest}
use security_system_gsb.Model.Role.{Role, CreateRoleRequest, UpdateRolePermissionsRequest}
use security_system_gsb.Model.Audit.{AuditLogEntry, AuditQueryParams}
use security_system_gsb.Model.ApiKey.{CreateApiKeyRequest}
use security_system_gsb.Model.Alert.{
  SecurityAlert, CreateAlertRequest, UpdateAlertRequest, AddCommentRequest, AlertQueryParams,
}
use security_system_gsb.Pkg.Libraries.{Libraries}
use security_system_gsb.Strconv.{ℤ, pos, negsuc}
use security_system_gsb.Http.{
  Context, Response, Step, goes, answers, Part, next, response, require, or_refuse, or_message,
  some_or_refuse,
}
use security_system_gsb.Repository.Roles as RoleRows
use security_system_gsb.Repository.Frames.{repository_rules}
use security_system_gsb.Service.Audit as AuditService
use security_system_gsb.Service.Alerts as AlertService
use security_system_gsb.Service.Users as UserService
use security_system_gsb.Service.ApiKeys as KeyService
use security_system_gsb.Service.Auth as Sessions
use security_system_gsb.Service.Auth.{AuthService, LoggedIn}
use security_system_gsb.Service.Rbac
use security_system_gsb.Service.Rbac.Frames.{create_role-Ends, update_role_permissions-Ends}
use security_system_gsb.Service.Frames.{service_rules, role_rank-Ends}
use security_system_gsb.Handler.Calls.{permits, is_low_rank, officer_rank, rank_of, rank_of_found}
use security_system_gsb.Handler.Alerts
use security_system_gsb.Handler.Alerts.{may_update, may_raise, may_take, or_update_error}
use security_system_gsb.Handler.Users
use security_system_gsb.Handler.Users.{outranks}
use security_system_gsb.Handler.Auth
use security_system_gsb.Handler.Auth.{answer_login, revoke_session}
use security_system_gsb.Handler.Admin
use security_system_gsb.Handler.Admin.{verify_last}
use security_system_gsb.Handler.ApiKeys

module _ {P : Core → Type 0} {A B : Type 0} where
  pub next-Ends :
      (s : Step A) (k : A → Part B) (v : World)
      → Ends P v
      → ((a : A) → Ends P (k a v).1)
      → Ends P (next s k v).1
  next-Ends (goes a) k v h hk = hk a
  next-Ends (answers r) k v h hk = h

module _ {P : Core → Type 0} where
  pub response-Ends : (out : Step Response × World) → Ends P out.1 → Ends P (response out).1
  response-Ends (goes r, w) h = h
  response-Ends (answers r, w) h = h

  pub require-Ends :
      (b : Bool) (status : ℕ) (text : String) (v : World)
      → Ends P v
      → Ends P (require b status text v).1
  require-Ends true status text v h = h
  require-Ends false status text v h = h

module _ {P : Core → Type 0} {A : Type 0} where
  pub or_refuse-Ends :
      (r : Result A) (status : ℕ) (text : String) (v : World)
      → Ends P v
      → Ends P (or_refuse r status text v).1
  or_refuse-Ends (ok a) status text v h = h
  or_refuse-Ends (err e) status text v h = h

  pub or_message-Ends :
      (r : Result A) (status : ℕ) (v : World) → Ends P v → Ends P (or_message r status v).1
  or_message-Ends (ok a) status v h = h
  or_message-Ends (err e) status v h = h

  pub some_or_refuse-Ends :
      (r : Option A) (status : ℕ) (text : String) (v : World)
      → Ends P v
      → Ends P (some_or_refuse r status text v).1
  some_or_refuse-Ends (some a) status text v h = h
  some_or_refuse-Ends none status text v h = h

pub ruleset handler_rules = (
  ends_rules, repository_rules, service_rules, next-Ends, response-Ends, require-Ends,
  or_refuse-Ends, or_message-Ends, some_or_refuse-Ends,
)

module _ {P : Core → Type 0} where
  rank_of_found-Ends : (r : Result Role) (w : World) → Ends P w → Ends P (rank_of_found r w).1
  unfolding rank_of
  rank_of_found-Ends (ok role) w h = role_rank-Ends role.id w h
  rank_of_found-Ends (err not_found) w h = h
  rank_of_found-Ends (err e) w h = role_rank-Ends 0 w h

  pub is_low_rank-Ends : (c : Context) (w : World) → Ends P w → Ends P (is_low_rank c w).1
  unfolding is_low_rank officer_rank rank_of Rbac.get_role_by_name
  is_low_rank-Ends c w h = search (handler_rules, rank_of_found-Ends) depth 20

  pub outranks-Ends :
      (c : Context) (role : ℕ) (text : String) (w : World)
      → Ends P w
      → Ends P (outranks c role text w).1
  unfolding outranks rank_of
  outranks-Ends c role text w h = search handler_rules depth 20

  pub or_update_error-Ends :
      (r : Result (Unit {0})) (w : World) → Ends P w → Ends P (or_update_error r w).1
  or_update_error-Ends (ok u) w h = h
  or_update_error-Ends (err e) w h = h

  pub may_update-Ends :
      (c : Context) (a : SecurityAlert) (w : World) → Ends P w → Ends P (may_update c a w).1
  unfolding permits
  may_update-Ends c a w h = search handler_rules depth 20

  pub may_raise-Ends :
      (c : Context) (req : UpdateAlertRequest) (a : SecurityAlert) (w : World)
      → Ends P w
      → Ends P (may_raise c req a w).1
  may_raise-Ends c req a w h = search handler_rules depth 20

  pub may_take-Ends :
      (to : ℕ) (a : SecurityAlert) (w : World) → Ends P w → Ends P (may_take to a w).1
  may_take-Ends to a w h = search handler_rules depth 20

  pub revoke_session-Ends :
      (session : Option ℕ) (w : World) → Ends P w → Ends P (revoke_session session w).1
  unfolding Sessions.logout
  revoke_session-Ends none w h = h
  revoke_session-Ends (some id) w h = search handler_rules

  pub verify_last-Ends : (n : ℤ) (w : World) → Ends P w → Ends P (verify_last n w).1
  unfolding AuditService.verify_chain
  verify_last-Ends (pos n) w h = search handler_rules
  verify_last-Ends (negsuc n) w h = search handler_rules

pub ruleset part_rules = (
  is_low_rank-Ends, outranks-Ends, or_update_error-Ends, may_update-Ends, may_raise-Ends,
  may_take-Ends, revoke_session-Ends, verify_last-Ends,
)
