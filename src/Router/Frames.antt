-- ===== src/Router/Frames.antt =====
-- `Frames`: what every request keeps, where the log of an audit entry and the creation of a role
-- keep it.
use security_system_gsb.Common.{◌≡◌, inl, inr, true, Bool-cases}
use security_system_gsb.World.{World}
use security_system_gsb.World.Kept.{Kept}
use security_system_gsb.World.Frames.{Core, Ends}
use security_system_gsb.Repository.Roles
use security_system_gsb.Model.Role.{CreateRoleRequest}
use security_system_gsb.Model.Audit.{AuditLogEntry}
use security_system_gsb.Pkg.Libraries.{Libraries}
use security_system_gsb.Http.{Context}
use security_system_gsb.Service.Audit
use security_system_gsb.Service.Auth.{AuthService}
use security_system_gsb.Middleware.{with_claims}
use security_system_gsb.Handler.Frames.Requests.{
  alerts_list-Ends, alerts_get-Ends, alerts_create-Ends, alerts_update-Ends, alerts_assign-Ends,
  alerts_add_comment-Ends, users_list-Ends, users_get-Ends, users_create-Ends, users_update-Ends,
  apikeys_list-Ends, apikeys_create-Ends, apikeys_revoke-Ends, auth_login-Ends, auth_refresh-Ends,
  auth_logout-Ends, auth_logout_all-Ends, auth_change_password-Ends, admin_list_roles-Ends,
  admin_create_role-Ends, admin_get_role_permissions-Ends, admin_update_role_permissions-Ends,
  admin_list_permissions-Ends, admin_list_audit_logs-Ends, admin_verify_audit_chain-Ends,
}
use security_system_gsb.Router.{
  Request, auth_login, auth_refresh, auth_logout, auth_logout_all, auth_password, alerts_list,
  alerts_get, alerts_create, alerts_update, alerts_assign, alerts_comment, users_list, users_get,
  users_create, users_update, apikeys_list, apikeys_create, apikeys_revoke, admin_list_roles,
  admin_create_role, admin_get_role_permissions, admin_update_role_permissions,
  admin_list_permissions, admin_list_audit_logs, admin_verify_audit_chain, is_public, handler,
  route, required,
}
use security_system_gsb.Router.Guards.{route_cases}

module _ (lib : Libraries) (s : AuthService) {P : Core → Type 0}
    (logs : (e : AuditLogEntry) (w : World) → Ends P w → Ends P (Audit.log e w).1)
    (creates : (req : CreateRoleRequest) (w : World)
      → Ends P w
      → Ends P (Roles.create req w).1) where
  Kept-Ends : (w v : World) → Kept w v → Ends P w → Ends P v
  Kept-Ends w v kept h = rw kept (record { at = h.at })

  handler-Ends : (r : Request) (c : Context) (w : World) → Ends P w → Ends P (handler lib s r c w).1
  unfolding handler
  handler-Ends (auth_login body) c w h = auth_login-Ends logs lib s body c w h
  handler-Ends (auth_refresh body) c w h = auth_refresh-Ends lib s body c w h
  handler-Ends auth_logout c w h = auth_logout-Ends logs c w h
  handler-Ends auth_logout_all c w h = auth_logout_all-Ends logs c w h
  handler-Ends (auth_password body) c w h = auth_change_password-Ends logs lib s body c w h
  handler-Ends (alerts_list query) c w h = alerts_list-Ends query c w h
  handler-Ends alerts_get c w h = alerts_get-Ends c w h
  handler-Ends (alerts_create body) c w h = alerts_create-Ends logs body c w h
  handler-Ends (alerts_update body) c w h = alerts_update-Ends logs body c w h
  handler-Ends (alerts_assign body) c w h = alerts_assign-Ends logs body c w h
  handler-Ends (alerts_comment body) c w h = alerts_add_comment-Ends body c w h
  handler-Ends users_list c w h = users_list-Ends c w h
  handler-Ends users_get c w h = users_get-Ends c w h
  handler-Ends (users_create body) c w h = users_create-Ends logs lib body c w h
  handler-Ends (users_update body) c w h = users_update-Ends logs body c w h
  handler-Ends apikeys_list c w h = apikeys_list-Ends c w h
  handler-Ends (apikeys_create body) c w h = apikeys_create-Ends logs lib body c w h
  handler-Ends apikeys_revoke c w h = apikeys_revoke-Ends logs c w h
  handler-Ends admin_list_roles c w h = admin_list_roles-Ends c w h
  handler-Ends (admin_create_role body) c w h = admin_create_role-Ends logs creates body c w h
  handler-Ends admin_get_role_permissions c w h = admin_get_role_permissions-Ends c w h
  handler-Ends (admin_update_role_permissions body) c w h =
      admin_update_role_permissions-Ends logs body c w h
  handler-Ends admin_list_permissions c w h = admin_list_permissions-Ends c w h
  handler-Ends (admin_list_audit_logs query) c w h = admin_list_audit_logs-Ends query c w h
  handler-Ends admin_verify_audit_chain c w h = admin_verify_audit_chain-Ends c w h

  public-Ends :
      (r : Request) (c : Context) (w : World)
      → is_public r ≡ true
      → Ends P w
      → Ends P (route lib s r c w).1
  unfolding route is_public required
  public-Ends (auth_login body) c w open_ h = handler-Ends (auth_login body) c w h
  public-Ends (auth_refresh body) c w open_ h = handler-Ends (auth_refresh body) c w h
  public-Ends _ c w open_ h = absurd (cc)

  pub route-Ends : (r : Request) (c : Context) (w : World) → Ends P w → Ends P (route lib s r c w).1
  route-Ends r c w h = elim (Bool-cases (is_public r)) [
    | inl open_ ↦ public-Ends r c w open_ h
    | inr private ↦ elim (route_cases lib s r c w private) [
      | inl (refused, kept) ↦ Kept-Ends w _ kept h
      | inr (claims, who, (v, kept, held, run)) ↦
          rw run (handler-Ends r (with_claims c claims) v (Kept-Ends w v kept h))
    ]
  ]
