-- ===== src/Model/Audit.antt =====
-- internal/model/audit.go
use security_system_gsb.Common.{ℕ, String}

pub record AuditLog : Type 0 where
  pub id : ℕ
  pub user_id : ℕ
  pub username : String
  pub action : String
  pub resource : String
  pub resource_id : String
  pub detail : String
  pub ip_address : String
  pub user_agent : String
  pub result : String
  pub prev_hash : String
  pub hash : String
  pub created_at : ℕ

abbrev pub audit_result_success : String
audit_result_success = "success"

abbrev pub audit_result_failure : String
audit_result_failure = "failure"

pub record AuditLogEntry : Type 0 where
  pub user_id : ℕ
  pub username : String
  pub action : String
  pub resource : String
  pub resource_id : String
  pub detail : String
  pub ip_address : String
  pub user_agent : String
  pub result : String

-- A parameter that the query leaves out, or that is negative, is "" or 0.
pub record AuditQueryParams : Type 0 where
  pub user_id : ℕ
  pub action : String
  pub resource : String
  pub result : String
  pub page : ℕ
  pub page_size : ℕ
