-- ===== src/Model/ApiKey.antt =====
-- internal/model/apikey.go
use security_system_gsb.Common.{ℕ, String, Bool, false, Option, none, some, List, ltb}

pub record ApiKey : Type 0 where
  pub id : ℕ
  pub name : String
  pub key_hash : String
  pub key_prefix : String
  pub owner_id : ℕ
  pub scopes : List String
  pub is_active : Bool
  pub expires_at : Option ℕ
  pub last_used_at : Option ℕ
  pub created_at : ℕ

abbrev pub after_expiry : ℕ → Option ℕ → Bool
after_expiry now none = false
after_expiry now (some t) = ltb t now

-- A key with no expiry never expires.
unfoldable pub is_expired : ℕ → ApiKey → Bool
is_expired now k = after_expiry now k.expires_at

pub record CreateApiKeyRequest : Type 0 where
  pub name : String
  pub scopes : List String
  pub expires_at : Option ℕ

pub record CreateApiKeyResponse : Type 0 where
  pub api_key : ApiKey
  pub raw_key : String
