-- ===== src/Model/User.antt =====
-- internal/model/user.go
use security_system_gsb.Common.{ℕ, String, Bool, false, ◌&&◌, Option, none, some, ltb, ◌==◌, nat_eq}

abbrev pub user_status_enabled : ℕ
user_status_enabled = 1

abbrev pub user_status_disabled : ℕ
user_status_disabled = 0

abbrev pub user_status_locked : ℕ
user_status_locked = 2

pub record User : Type 0 where
  pub id : ℕ
  pub username : String
  pub password_hash : String
  pub email : String
  pub role_id : ℕ
  pub status : ℕ
  pub is_probation : Bool
  pub failed_login_count : ℕ
  pub locked_until : Option ℕ
  pub last_login_at : Option ℕ
  pub created_at : ℕ
  pub updated_at : ℕ

-- time.Now().Before(*u.LockedUntil), false where there is no such time.
abbrev before_lock_end : ℕ → Option ℕ → Bool
before_lock_end now none = false
before_lock_end now (some until) = ltb now until

unfoldable pub is_locked : ℕ → User → Bool
is_locked now u = u.status == user_status_locked && before_lock_end now u.locked_until

pub record LoginRequest : Type 0 where
  pub username : String
  pub password : String

pub record ChangePasswordRequest : Type 0 where
  pub old_password : String
  pub new_password : String

pub record CreateUserRequest : Type 0 where
  pub username : String
  pub password : String
  pub email : String
  pub role_id : ℕ

-- A field that the request leaves out is "" or 0.
pub record UpdateUserRequest : Type 0 where
  pub email : String
  pub role_id : ℕ
  pub status : ℕ
