-- ===== src/Pkg/Libraries.antt =====
-- What pkg/crypto and pkg/jwt call and the repository does not hold: golang.org/x/crypto/bcrypt,
-- crypto/sha256 with encoding/hex, crypto/rand, and github.com/golang-jwt/jwt/v5.
use security_system_gsb.Common.{ℕ, String, Bool}
use security_system_gsb.Error.{Result}

-- Claims of pkg/jwt/token.go, with the registered claims that the package sets.
pub record AccessClaims : Type 0 where
  pub user_id : ℕ
  pub username : String
  pub role_id : ℕ
  pub expires_at : ℕ
  pub issued_at : ℕ
  pub issuer : String

pub record RefreshClaims : Type 0 where
  pub session_id : ℕ
  pub expires_at : ℕ
  pub issued_at : ℕ
  pub issuer : String

-- A parsed token: its claims, and the field `Valid`.
pub record Token (C : Type 0) : Type 0 where
  pub claims : C
  pub valid : Bool

-- A function that is random takes the count of the uses of randomness before it as its first
-- argument. A key function is given whether the token's method is HMAC; a parser is given it,
-- the time and the token.
pub record Libraries : Type 0 where
  pub generate_from_password : ℕ → String → ℕ → Result String
  pub compare_hash_and_password : String → String → Bool
  pub sha256_hex : String → String
  pub random_hex : ℕ → ℕ → Result String
  pub sign_access : AccessClaims → String → Result String
  pub sign_refresh : RefreshClaims → String → Result String
  pub parse_access : (Bool → Result String) → ℕ → String → Result (Token AccessClaims)
  pub parse_refresh : (Bool → Result String) → ℕ → String → Result (Token RefreshClaims)
