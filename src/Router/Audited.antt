-- ===== src/Router/Audited.antt =====
-- `Audited`: which requests leave a trace in the audit channel.
use security_system_gsb.Common.{
  ◌≡◌, ◌<◌, refl, ap, ◌∙◌, inl, inr, ℕ, String, false, Option, none, some, arith,
}
use security_system_gsb.World.{World}
use security_system_gsb.World.Kept.{Kept}
use security_system_gsb.World.Frames.{Core, Ends, statement-Ends}
use security_system_gsb.Model.Role.{CreateRoleRequest}
use security_system_gsb.Model.Audit.{AuditLogEntry, audit_result_success}
use security_system_gsb.Pkg.Libraries.{Libraries, AccessClaims}
use security_system_gsb.Repository.Roles
use security_system_gsb.Http.{Context}
use security_system_gsb.Http.Success.{Success}
use security_system_gsb.Middleware.{with_claims}
use security_system_gsb.Service.Audit as AuditService
use security_system_gsb.Service.Audit.{enqueue}
use security_system_gsb.Service.Auth.{AuthService}
use security_system_gsb.Handler.Frames.Requests.{
  alerts_list-Ends, alerts_get-Ends, alerts_add_comment-Ends, users_list-Ends, users_get-Ends,
  apikeys_list-Ends, admin_list_roles-Ends, admin_get_role_permissions-Ends,
  admin_list_permissions-Ends, admin_list_audit_logs-Ends, admin_verify_audit_chain-Ends,
}
use security_system_gsb.Handler.Audited.{Audited, entry}
use security_system_gsb.Handler.Audited.Requests.{
  alerts_create-Audited, alerts_update-Audited, alerts_assign-Audited, users_create-Audited,
  users_update-Audited, apikeys_create-Audited, apikeys_revoke-Audited, auth_logout-Audited,
  auth_logout_all-Audited, auth_password-Audited, admin_create_role-Audited,
  admin_update_role_permissions-Audited,
}
use security_system_gsb.Router.{
  Request, auth_login, auth_refresh, auth_logout, auth_logout_all, auth_password, alerts_list,
  alerts_get, alerts_create, alerts_update, alerts_assign, alerts_comment, users_list, users_get,
  users_create, users_update, apikeys_list, apikeys_create, apikeys_revoke, admin_list_roles,
  admin_create_role, admin_get_role_permissions, admin_update_role_permissions,
  admin_list_permissions, admin_list_audit_logs, admin_verify_audit_chain, is_public, handler,
  route,
}
use security_system_gsb.Router.Guards.{route_cases, Identified}

-- The action and the kind of resource that the entry about a request names.
unfoldable pub recorded : Request → Option (String × String)
recorded auth_logout = some ("logout", "auth")
recorded auth_logout_all = some ("logout_all", "auth")
recorded (auth_password body) = some ("change_password", "auth")
recorded (alerts_create body) = some ("create_alert", "alert")
recorded (alerts_update body) = some ("update_alert", "alert")
recorded (alerts_assign body) = some ("assign_alert", "alert")
recorded (users_create body) = some ("create_user", "user")
recorded (users_update body) = some ("update_user", "user")
recorded (apikeys_create body) = some ("create_apikey", "apikey")
recorded apikeys_revoke = some ("revoke_apikey", "apikey")
recorded (admin_create_role body) = some ("create_role", "role")
recorded (admin_update_role_permissions body) = some ("update_role_permissions", "role")
recorded _ = none

-- The entry of the user has been sent, or none has.
abbrev pub Recorded : ℕ → Option (String × String) → World → World → Type 0
Recorded user none w v = v.log_chan ≡ w.log_chan
Recorded user (some (action, resource)) w v =
    (e : AuditLogEntry) × (e.user_id ≡ user)
    × (e.action ≡ action)
    × (e.resource ≡ resource)
    × (e.result ≡ audit_result_success)
    × (v.log_chan ≡ enqueue e w.log_chan)

-- The channel is still that of `w`.
abbrev Still : World → Core → Type 0
Still w k = k.log_chan ≡ w.log_chan

still : (w : World) → Ends (Still w) w
still w = record { at = refl }

create-Still :
    (w : World) (req : CreateRoleRequest) (v : World)
    → Ends (Still w) v
    → Ends (Still w) (Roles.create req v).1
unfolding Roles.create
create-Still w req v h =
    statement-Ends _ v h (λ u g. let here = g.at in record { at = ground arith })

sent :
    {action resource : String} {n : ℕ} {v : World} (c : Context) (claims : AccessClaims) (w : World)
    → Audited (Still w) (with_claims c claims) action resource n v
    → n < 400
    → Recorded claims.user_id (some (action, resource)) w v
unfolding AuditService.log
sent c claims w (entry h) good =
    let (e, u, (who, action, resource, result), before, log) = h good in
    (e, who, action, resource, result, ap (λ x. x.log_chan) log ∙ ap (enqueue e) before.at)

module _ (lib : Libraries) (s : AuthService) (c : Context) (claims : AccessClaims) (w : World) where
  abbrev known : Context
  known = with_claims c claims

  handler_records :
      (r : Request)
      → is_public r ≡ false
      → Success (handler lib s r known w)
      → Recorded claims.user_id (recorded r) w (handler lib s r known w).1
  unfolding handler recorded is_public
  handler_records (auth_login body) private good = absurd (cc)
  handler_records (auth_refresh body) private good = absurd (cc)
  handler_records auth_logout private good =
      sent c claims w (auth_logout-Audited known w (still w)) good
  handler_records auth_logout_all private good =
      sent c claims w (auth_logout_all-Audited known w (still w)) good
  handler_records (auth_password body) private good =
      sent c claims w (auth_password-Audited known w (still w) lib s body) good
  handler_records (alerts_list query) private good = (alerts_list-Ends query known w (still w)).at
  handler_records alerts_get private good = (alerts_get-Ends known w (still w)).at
  handler_records (alerts_create body) private good =
      sent c claims w (alerts_create-Audited known w (still w) body) good
  handler_records (alerts_update body) private good =
      sent c claims w (alerts_update-Audited known w (still w) body) good
  handler_records (alerts_assign body) private good =
      sent c claims w (alerts_assign-Audited known w (still w) body) good
  handler_records (alerts_comment body) private good =
      (alerts_add_comment-Ends body known w (still w)).at
  handler_records users_list private good = (users_list-Ends known w (still w)).at
  handler_records users_get private good = (users_get-Ends known w (still w)).at
  handler_records (users_create body) private good =
      sent c claims w (users_create-Audited known w (still w) lib body) good
  handler_records (users_update body) private good =
      sent c claims w (users_update-Audited known w (still w) body) good
  handler_records apikeys_list private good = (apikeys_list-Ends known w (still w)).at
  handler_records (apikeys_create body) private good =
      sent c claims w (apikeys_create-Audited known w (still w) lib body) good
  handler_records apikeys_revoke private good =
      sent c claims w (apikeys_revoke-Audited known w (still w)) good
  handler_records admin_list_roles private good = (admin_list_roles-Ends known w (still w)).at
  handler_records (admin_create_role body) private good =
      sent c claims w (admin_create_role-Audited known w (still w) (create-Still w) body) good
  handler_records admin_get_role_permissions private good =
      (admin_get_role_permissions-Ends known w (still w)).at
  handler_records (admin_update_role_permissions body) private good =
      sent c claims w (admin_update_role_permissions-Audited known w (still w) body) good
  handler_records admin_list_permissions private good =
      (admin_list_permissions-Ends known w (still w)).at
  handler_records (admin_list_audit_logs query) private good =
      (admin_list_audit_logs-Ends query known w (still w)).at
  handler_records admin_verify_audit_chain private good =
      (admin_verify_audit_chain-Ends known w (still w)).at

Recorded-Kept :
    (user : ℕ) (what : Option (String × String)) (w v u : World)
    → Kept w v
    → Recorded user what v u
    → Recorded user what w u
Recorded-Kept user none w v u kept h = h ∙ ap (λ x. x.log_chan) kept
Recorded-Kept user (some (action, resource)) w v u kept (e, who, a, k, good, log) =
    (e, who, a, k, good, log ∙ ap (λ x. enqueue e x.log_chan) kept)

-- A request, other than a login or a refresh, that is answered with a success (a status below 400)
-- has sent one entry to the audit channel, which drops it only if it is full: an entry of success
-- of the user in the access token, with the action and the kind of resource that the table
-- `recorded` gives. A request that the table leaves out (a listing, a lookup, the check of the chain,
-- a comment) sends none. Any statement may fail.
pub route_records :
    (lib : Libraries) (s : AuthService) (r : Request) (c : Context) (w : World)
    → is_public r ≡ false
    → Success (route lib s r c w)
    → (claims : AccessClaims) × Identified lib s r c w claims
      × Recorded claims.user_id (recorded r) w (route lib s r c w).1
route_records lib s r c w private good = elim (route_cases lib s r c w private) [
  | inl (inl unauthorized, kept) ↦ absurd (omega (arith, unauthorized))
  | inl (inr forbidden, kept) ↦ absurd (omega (arith, forbidden))
  | inr (claims, who, (v, kept, held, run)) ↦ (
    claims,
    who,
    Recorded-Kept claims.user_id (recorded r) w v _ kept
        (rw run (handler_records lib s c claims v r private (rw run at good))),
  )
]
