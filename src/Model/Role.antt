-- ===== src/Model/Role.antt =====
-- internal/model/role.go
use security_system_gsb.Common.{ℕ, String, Option, List}

pub record Role : Type 0 where
  pub id : ℕ
  pub name : String
  pub display_name : String
  pub parent_id : Option ℕ
  pub created_at : ℕ

pub record Permission : Type 0 where
  pub id : ℕ
  pub name : String
  pub description : String

pub record RolePermission : Type 0 where
  pub role_id : ℕ
  pub permission_id : ℕ

pub record CreateRoleRequest : Type 0 where
  pub name : String
  pub display_name : String
  pub parent_id : Option ℕ

pub record UpdateRolePermissionsRequest : Type 0 where
  pub permission_ids : List ℕ

abbrev pub perm_alert_read : String
perm_alert_read = "alert:read"

abbrev pub perm_alert_write : String
perm_alert_write = "alert:write"

abbrev pub perm_alert_delete : String
perm_alert_delete = "alert:delete"

abbrev pub perm_alert_assign : String
perm_alert_assign = "alert:assign"

abbrev pub perm_user_read : String
perm_user_read = "user:read"

abbrev pub perm_user_write : String
perm_user_write = "user:write"

abbrev pub perm_role_read : String
perm_role_read = "role:read"

abbrev pub perm_role_write : String
perm_role_write = "role:write"

abbrev pub perm_audit_read : String
perm_audit_read = "audit:read"

abbrev pub perm_apikey_manage : String
perm_apikey_manage = "apikey:manage"
