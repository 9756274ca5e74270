-- ===== src/Model/Session.antt =====
-- internal/model/session.go
use security_system_gsb.Common.{ℕ, String, Bool, not, ◌&&◌, Option, ltb}

pub record Session : Type 0 where
  pub id : ℕ
  pub user_id : ℕ
  pub refresh_token : String
  pub user_agent : String
  pub ip_address : String
  pub is_revoked : Bool
  pub expires_at : ℕ
  pub revoked_at : Option ℕ
  pub created_at : ℕ

unfoldable pub is_expired : ℕ → Session → Bool
is_expired now s = ltb s.expires_at now

unfoldable pub is_valid : ℕ → Session → Bool
unfolding is_expired
is_valid now s = not s.is_revoked && not (is_expired now s)

pub record TokenPair : Type 0 where
  pub access_token : String
  pub refresh_token : String
  pub expires_at : ℕ

pub record RefreshRequest : Type 0 where
  pub refresh_token : String
