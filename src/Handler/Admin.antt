-- ===== src/Handler/Admin.antt =====
-- internal/handler/admin_handler.go. The routes put a permission check before each handler.
use security_system_gsb.Common.{ℕ, ltb, if◌then◌else◌}
use security_system_gsb.Error.{library, format_int, Result}
use security_system_gsb.World.{Exec, statement, raise}
use security_system_gsb.Model.Role.{CreateRoleRequest, UpdateRolePermissionsRequest}
use security_system_gsb.Model.Audit.{AuditQueryParams}
use security_system_gsb.Http.{
  Handler, reply, call, or_refuse, or_message, serve, status_ok, status_created, status_bad_request,
  status_internal_error, role, roles, permissions, audit_logs, broken_at, intact, done, ◌>>=◌, ◌>>◌,
}
use security_system_gsb.Strconv.{ℤ, pos, negsuc, to_nat, atoi_or_zero, format_int64}
use security_system_gsb.Service.Rbac
use security_system_gsb.Service.Audit
use security_system_gsb.Handler.Calls.{id_or_refuse, entry_of, log_entry}

unfoldable pub list_roles : Handler
list_roles c = serve do
  found ← call Rbac.list_roles
  rs ← or_refuse found status_internal_error "查询失败"
  reply status_ok (roles rs)

unfoldable pub create_role : Result CreateRoleRequest → Handler
create_role body c = serve do
  req ← or_message body status_bad_request
  created ← call (Rbac.create_role req)
  r ← or_message created status_bad_request
  log_entry (entry_of c "create_role" "role" (format_int r.id) r.name)
  reply status_created (role r)

unfoldable pub list_permissions : Handler
list_permissions c = serve do
  found ← call Rbac.list_permissions
  ps ← or_refuse found status_internal_error "查询失败"
  reply status_ok (permissions ps)

unfoldable pub get_role_permissions : Handler
get_role_permissions c = serve do
  id ← id_or_refuse c "角色ID格式错误"
  found ← call (Rbac.get_role_permissions (to_nat id))
  ps ← or_refuse found status_internal_error "查询失败"
  reply status_ok (permissions ps)

unfoldable pub update_role_permissions : Result UpdateRolePermissionsRequest → Handler
update_role_permissions body c = serve do
  id ← id_or_refuse c "角色ID格式错误"
  req ← or_message body status_bad_request
  updated ← call (Rbac.update_role_permissions (to_nat id) req.permission_ids)
  saved ← or_refuse updated status_internal_error "更新失败"
  log_entry (entry_of c "update_role_permissions" "role" (format_int64 id) "")
  reply status_ok (done "权限已更新")

unfoldable pub list_audit_logs : Result AuditQueryParams → Handler
list_audit_logs query c = serve do
  q ← or_message query status_bad_request
  found ← call (Audit.list q)
  page ← or_refuse found status_internal_error "查询失败"
  reply status_ok (audit_logs page.total page.rows)

-- The database refuses a negative LIMIT.
abbrev pub verify_last : ℤ → Exec ℕ
verify_last (pos n) = Audit.verify_chain n
verify_last (negsuc n) = statement (raise (library "LIMIT must not be negative"))

unfoldable pub verify_audit_chain : Handler
verify_audit_chain c = serve do
  found ← call (verify_last (atoi_or_zero c.last_n_param))
  broken ← or_refuse found status_internal_error "校验失败"
  if ltb 0 broken then reply status_ok (broken_at broken) else reply status_ok intact
