-- ===== src/Router/Permissions.antt =====
-- `Permissions`: what a caller has to be permitted for each request to be answered with a success.
use security_system_gsb.Common.{
  leb, subst, ◌⊎◌, ◌≡◌, ◌<◌, refl, ap, ◌∙◌, inl, inr, ℕ, String, Bool, true, false, List, Option,
  none, some, find, has_key, ◌==◌, nat_eq, if◌then◌else◌, Bool-cases, Option-cases, arith,
}
use security_system_gsb.Error.{Result, ok}
use security_system_gsb.World.{World}
use security_system_gsb.World.Statements.{with_faults}
use security_system_gsb.Model.Alert.{
  SecurityAlert, AlertQueryParams, CreateAlertRequest, UpdateAlertRequest, AddCommentRequest,
  status_closed,
}
use security_system_gsb.Model.User.{CreateUserRequest, UpdateUserRequest}
use security_system_gsb.Model.Role.{
  perm_alert_read, perm_alert_write, perm_alert_delete, perm_alert_assign, perm_user_read,
  perm_user_write, perm_role_read, perm_role_write, perm_audit_read, perm_apikey_manage,
}
use security_system_gsb.Pkg.Libraries.{Libraries, AccessClaims}
use security_system_gsb.Http.{
  Context, Response, status_bad_request, status_unauthorized, status_forbidden, status_not_found,
  status_unprocessable,
}
use security_system_gsb.Middleware.{with_claims}
use security_system_gsb.Strconv.{ℤ, to_nat, parse_int}
use security_system_gsb.Repository.Reads.{find_alert}
use security_system_gsb.Repository.Alerts.{alert_id}
use security_system_gsb.Service.Alerts as Service
use security_system_gsb.Service.Auth.{AuthService}
use security_system_gsb.Service.Rbac.{has_permission}
use security_system_gsb.Service.Rbac.Effects.{has_permission-Checked}
use security_system_gsb.Handler.Calls.{permits}
use security_system_gsb.Handler.Alerts
use security_system_gsb.Handler.Users
use security_system_gsb.Handler.Users.{is_self}
use security_system_gsb.Router.{
  Request, auth_login, auth_refresh, auth_logout, auth_logout_all, auth_password, alerts_list,
  alerts_get, alerts_create, alerts_update, alerts_assign, alerts_comment, users_list, users_get,
  users_create, users_update, apikeys_list, apikeys_create, apikeys_revoke, admin_list_roles,
  admin_create_role, admin_get_role_permissions, admin_update_role_permissions,
  admin_list_permissions, admin_list_audit_logs, admin_verify_audit_chain, is_public, required,
  handler, route,
}
use security_system_gsb.Router.Guards.{route_cases, Identified, Holds}

abbrev is_closed_row : Option SecurityAlert → Bool
is_closed_row none = false
is_closed_row (some a) = a.status == status_closed

-- Whether the alert that the path names is closed.
abbrev pub names_closed : Option ℤ → World → Bool
names_closed none w = false
names_closed (some id) w = is_closed_row (find (has_key alert_id (to_nat id)) w.alerts)

abbrev pub names_self : Context → Option ℤ → Bool
names_self c none = false
names_self c (some id) = is_self c id

-- What a caller may do with a request: the table of the permissions.
unfoldable pub needed : Request → Context → World → Option String
needed (auth_login body) c w = none
needed (auth_refresh body) c w = none
needed auth_logout c w = none
needed auth_logout_all c w = none
needed (auth_password body) c w = none
needed (alerts_list query) c w = some perm_alert_read
needed alerts_get c w = some perm_alert_read
needed (alerts_create body) c w = some perm_alert_write
needed (alerts_update body) c w =
    some (if names_closed (parse_int c.id_param) w then perm_alert_delete else perm_alert_write)
needed (alerts_assign body) c w = some perm_alert_assign
needed (alerts_comment body) c w = some perm_alert_read
needed users_list c w = some perm_user_read
needed users_get c w = if names_self c (parse_int c.id_param) then none else some perm_user_read
needed (users_create body) c w = some perm_user_write
needed (users_update body) c w = some perm_user_write
needed apikeys_list c w = none
needed (apikeys_create body) c w = some perm_apikey_manage
needed apikeys_revoke c w = some perm_apikey_manage
needed admin_list_roles c w = some perm_role_read
needed (admin_create_role body) c w = some perm_role_write
needed admin_get_role_permissions c w = some perm_role_read
needed (admin_update_role_permissions body) c w = some perm_role_write
needed admin_list_permissions c w = some perm_role_read
needed (admin_list_audit_logs query) c w = some perm_audit_read
needed admin_verify_audit_chain c w = some perm_audit_read

-- The check of the permission says yes, with some schedule of failing statements.
abbrev pub Granted : AccessClaims → Option String → World → Type 0
Granted claims none w = Unit {0}
Granted claims (some perm) w =
    (fs : List (Option String)) × ((has_permission claims.role_id claims.user_id perm
        (with_faults w fs)).0
      ≡ ok true)

-- A success, a status below 400, or 422, with which an update of a closed alert is refused after the
-- check of the permission.
abbrev pub Admits : ℕ → Type 0
Admits n = (n < 400) ⊎ (n ≡ status_unprocessable)

abbrev pub Admitted : Response × World → Type 0
Admitted out = Admits out.0.status

shut : (n : ℕ) → Admits n → leb 400 n ≡ true → (n == status_unprocessable) ≡ false → ⊥
shut n (inl low) high other = ground arith
shut n (inr same) high other = ground arith

-- What answers 403 without a permission admits nobody without it.
gate :
    {status : ℕ} (claims : AccessClaims) (perm : String) (w : World)
    → ((v : World)
        → has_permission claims.role_id claims.user_id perm w ≡ (ok false, v)
        → status ≡ status_forbidden)
    → Admits status
    → (has_permission claims.role_id claims.user_id perm w).0 ≡ ok true
gate claims perm w refused s =
    let (b, v, run, kept) = has_permission-Checked claims.role_id claims.user_id perm w in
    elim (Bool-cases b) [
      | inl yes_ ↦ ap (λ x. x.0) run ∙ ap ok yes_
      | inr no_ ↦
          let e = refused v (run ∙ ap (λ a. (ok a, v)) no_) in
          absurd (shut status_forbidden (subst Admits e s) refl refl)
    ]

module _ (c : Context) (claims : AccessClaims) (w : World) where
  abbrev known : Context
  known = with_claims c claims

  abbrev Needs : String → Type 0
  Needs perm = Granted claims (some perm) w

  list_grants :
      (query : Result AlertQueryParams)
      → Admitted (Alerts.list query known w)
      → Needs perm_alert_read
  unfolding Alerts.list permits
  list_grants query good = (w.faults, gate claims perm_alert_read w (λ v no_. rw no_ refl) good)

  get_grants : Admitted (Alerts.get known w) → Needs perm_alert_read
  unfolding Alerts.get permits
  get_grants good = (w.faults, gate claims perm_alert_read w (λ v no_. rw no_ refl) good)

  create_grants :
      (body : Result CreateAlertRequest)
      → Admitted (Alerts.create body known w)
      → Needs perm_alert_write
  unfolding Alerts.create permits
  create_grants body good = (w.faults, gate claims perm_alert_write w (λ v no_. rw no_ refl) good)

  assign_grants :
      (body : Result ℕ) → Admitted (Alerts.assign body known w) → Needs perm_alert_assign
  unfolding Alerts.assign permits
  assign_grants body good = (w.faults, gate claims perm_alert_assign w (λ v no_. rw no_ refl) good)

  comment_grants :
      (body : Result AddCommentRequest)
      → Admitted (Alerts.add_comment body known w)
      → Needs perm_alert_read
  unfolding Alerts.add_comment permits
  comment_grants body good = (w.faults, gate claims perm_alert_read w (λ v no_. rw no_ refl) good)

  users_grants : Admitted (Users.list known w) → Needs perm_user_read
  unfolding Users.list permits
  users_grants good = (w.faults, gate claims perm_user_read w (λ v no_. rw no_ refl) good)

  user_create_grants :
      (lib : Libraries) (body : Result CreateUserRequest)
      → Admitted (Users.create lib body known w)
      → Needs perm_user_write
  unfolding Users.create permits
  user_create_grants lib body good =
      (w.faults, gate claims perm_user_write w (λ v no_. rw no_ refl) good)

  user_update_grants :
      (body : Result UpdateUserRequest)
      → Admitted (Users.update body known w)
      → Needs perm_user_write
  unfolding Users.update permits
  user_update_grants body good =
      (w.faults, gate claims perm_user_write w (λ v no_. rw no_ refl) good)

  user_get_grants :
      Admitted (Users.get known w)
      → Granted claims
          (if names_self known (parse_int c.id_param) then none else some perm_user_read)
          w
  unfolding Users.get permits
  user_get_grants good = elim (Option-cases (parse_int c.id_param)) [
    | inl bad ↦ absurd (shut status_bad_request (rw bad at good) refl refl)
    | inr (id, parsed) ↦ elim (Bool-cases (is_self known id)) [
      | inl self ↦ rw (parsed, self) tt
      | inr other ↦
          rw (parsed, other)
            (w.faults, gate claims perm_user_read w (λ v no_. rw (parsed, other, no_) refl) good)
    ]
  ]

  update_grants :
      (body : Result UpdateAlertRequest)
      → Admitted (Alerts.update body known w)
      → Needs
          (if names_closed (parse_int c.id_param) w then perm_alert_delete else perm_alert_write)
  unfolding Alerts.update Service.get_by_id permits
  update_grants body good = elim (Option-cases (parse_int c.id_param)) [
    | inl bad ↦ absurd (shut status_bad_request (rw bad at good) refl refl)
    | inr (id, parsed) ↦ elim (find_alert (to_nat id) w) [
      | inr (fs, text, failed) ↦
          absurd (shut status_not_found (rw (parsed, failed) at good) refl refl)
      | inl (fs, run) ↦ elim (Option-cases (find (has_key alert_id (to_nat id)) w.alerts)) [
        | inl missing ↦ absurd (shut status_not_found (rw (parsed, run, missing) at good) refl refl)
        | inr (a, found) ↦ elim (Bool-cases (a.status == status_closed)) [
          | inl closed ↦
              rw (parsed, found, closed)
                (
                  fs,
                  gate claims perm_alert_delete (with_faults w fs)
                      (λ v no_. rw (parsed, run, found, closed, no_) refl) good,
                )
          | inr not_closed ↦
              rw (parsed, found, not_closed)
                (
                  fs,
                  gate claims perm_alert_write (with_faults w fs)
                      (λ v no_. rw (parsed, run, found, not_closed, no_) refl) good,
                )
        ]
      ]
    ]
  ]

-- The table holds of the handlers, each behind the check of its route.
handler_grants :
    (lib : Libraries) (s : AuthService) (c : Context) (claims : AccessClaims) (r : Request)
    (w v : World)
    → Holds claims (required r) w v
    → Admitted (handler lib s r (with_claims c claims) v)
    → Granted claims (needed r (with_claims c claims) w) w
unfolding required handler needed
handler_grants lib s c claims (auth_login body) w v held good = tt
handler_grants lib s c claims (auth_refresh body) w v held good = tt
handler_grants lib s c claims auth_logout w v held good = tt
handler_grants lib s c claims auth_logout_all w v held good = tt
handler_grants lib s c claims (auth_password body) w v held good = tt
handler_grants lib s c claims (alerts_list query) w v held good =
    list_grants c claims w query (rw held at good)
handler_grants lib s c claims alerts_get w v held good = get_grants c claims w (rw held at good)
handler_grants lib s c claims (alerts_create body) w v held good =
    create_grants c claims w body (rw held at good)
handler_grants lib s c claims (alerts_update body) w v held good =
    update_grants c claims w body (rw held at good)
handler_grants lib s c claims (alerts_assign body) w v held good =
    assign_grants c claims w body (rw held at good)
handler_grants lib s c claims (alerts_comment body) w v held good =
    comment_grants c claims w body (rw held at good)
handler_grants lib s c claims users_list w v held good = users_grants c claims w (rw held at good)
handler_grants lib s c claims users_get w v held good = user_get_grants c claims w (rw held at good)
handler_grants lib s c claims (users_create body) w v held good =
    user_create_grants c claims w lib body (rw held at good)
handler_grants lib s c claims (users_update body) w v held good =
    user_update_grants c claims w body (rw held at good)
handler_grants lib s c claims apikeys_list w v held good = tt
handler_grants lib s c claims (apikeys_create body) w v held good = (w.faults, ap (λ x. x.0) held)
handler_grants lib s c claims apikeys_revoke w v held good = (w.faults, ap (λ x. x.0) held)
handler_grants lib s c claims admin_list_roles w v held good = (w.faults, ap (λ x. x.0) held)
handler_grants lib s c claims (admin_create_role body) w v held good =
    (w.faults, ap (λ x. x.0) held)
handler_grants lib s c claims admin_get_role_permissions w v held good =
    (w.faults, ap (λ x. x.0) held)
handler_grants lib s c claims (admin_update_role_permissions body) w v held good =
    (w.faults, ap (λ x. x.0) held)
handler_grants lib s c claims admin_list_permissions w v held good = (w.faults, ap (λ x. x.0) held)
handler_grants lib s c claims (admin_list_audit_logs query) w v held good =
    (w.faults, ap (λ x. x.0) held)
handler_grants lib s c claims admin_verify_audit_chain w v held good =
    (w.faults, ap (λ x. x.0) held)

-- A request, other than a login or a refresh, that is answered with a success (a status below 400),
-- or with 422, carries a valid access token, and the role and the user in the token have the
-- permission that the table `needed` gives for the request: none for reading the own account, and
-- `alert:delete` in place of `alert:write` for an update of an alert that is closed. Any statement
-- may fail; the check may have been made after such failures.
pub route_permitted :
    (lib : Libraries) (s : AuthService) (r : Request) (c : Context) (w : World)
    → is_public r ≡ false
    → Admitted (route lib s r c w)
    → (claims : AccessClaims) × Identified lib s r c w claims
      × Granted claims (needed r (with_claims c claims) w) w
route_permitted lib s r c w private good = elim (route_cases lib s r c w private) [
  | inl (inl unauthorized, kept) ↦
      absurd (shut status_unauthorized (subst Admits unauthorized good) refl refl)
  | inl (inr forbidden, kept) ↦
      absurd (shut status_forbidden (subst Admits forbidden good) refl refl)
  | inr (claims, who, (v, kept, held, run)) ↦
      (claims, who, handler_grants lib s c claims r w v held (rw run at good))
]
