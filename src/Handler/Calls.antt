-- ===== src/Handler/Calls.antt =====
-- The calls and checks that several handlers of internal/handler make.
use security_system_gsb.Common.{ℕ, String, Bool, false, ◌||◌, Option, none, some, ltb, ◌==◌, nat_eq}
use security_system_gsb.Error.{Result, ok, err, not_found}
use security_system_gsb.World.{World}
use security_system_gsb.Model.Role.{Role}
use security_system_gsb.Model.Alert.{SecurityAlert}
use security_system_gsb.Model.Audit.{AuditLogEntry, audit_result_success}
use security_system_gsb.Http.{
  Context, Part, Step, goes, call, value_or, some_or_refuse, caller_id, caller_role, caller_name,
  status_bad_request, ◌>>=◌,
}
use security_system_gsb.Strconv.{ℤ, parse_int}
use security_system_gsb.Service.Rbac
use security_system_gsb.Service.Audit

abbrev pub same_step : {A : Type 0} → A → Result A × World → Step A × World
same_step d (r, w) = (goes (value_or d r), w)

-- h.rbacSvc.HasPermission(roleID, callerID, perm)
unfoldable pub permits : Context → String → Part Bool
permits c perm w = same_step false (Rbac.has_permission (caller_role c) (caller_id c) perm w)

-- h.rbacSvc.RoleRank(role)
unfoldable pub rank_of : ℕ → Part ℕ
rank_of role w = same_step 0 (Rbac.role_rank role w)

-- The rank of the role that a lookup has found, 0 where it has found none. On an error of the
-- database, the lookup leaves an empty role, whose identifier is 0.
abbrev pub rank_of_found : Result Role → Part ℕ
rank_of_found (ok role) w = rank_of role.id w
rank_of_found (err not_found) w = (goes 0, w)
rank_of_found (err e) w = rank_of 0 w

unfoldable pub officer_rank : Part ℕ
unfolding rank_of
officer_rank = do officer ← call (Rbac.get_role_by_name "security_officer"); rank_of_found officer

abbrev is_assignee : ℕ → Option ℕ → Bool
is_assignee id none = false
is_assignee id (some assignee) = assignee == id

-- a.CreatorID == callerID || (a.AssigneeID != nil && *a.AssigneeID == callerID)
abbrev pub takes_part : ℕ → SecurityAlert → Bool
takes_part id a = a.creator_id == id || is_assignee id a.assignee_id

-- callerRank < officerRank
unfoldable pub is_low_rank : Context → Part Bool
unfolding officer_rank
is_low_rank c = do
  caller_rank ← rank_of (caller_role c)
  officer ← officer_rank
  (λ w. (goes (ltb caller_rank officer), w))

-- strconv.ParseInt(c.Param("id"), 10, 64)
abbrev pub id_or_refuse : Context → String → Part ℤ
id_or_refuse c text = some_or_refuse (parse_int c.id_param) status_bad_request text

-- The entry of a handler behind the authentication; it leaves the user agent out.
abbrev pub entry_of : Context → String → String → String → String → AuditLogEntry
entry_of c action resource resource_id detail = record {
  user_id = caller_id c;
  username = caller_name c;
  action = action;
  resource = resource;
  resource_id = resource_id;
  detail = detail;
  ip_address = c.client_ip;
  user_agent = "";
  result = audit_result_success;
}

abbrev after_log : Result (Unit {0}) × World → Step (Unit {0}) × World
after_log (r, w) = (goes tt, w)

-- h.auditSvc.Log(entry)
abbrev pub log_entry : AuditLogEntry → Part (Unit {0})
log_entry entry w = after_log (Audit.log entry w)
