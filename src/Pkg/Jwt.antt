-- ===== src/Pkg/Jwt.antt =====
-- pkg/jwt/token.go. The clock is the first argument.
use security_system_gsb.Common.{ℕ, String, Bool, if◌then◌else◌}
use security_system_gsb.Error.{errorf, Result, ok, err}
use security_system_gsb.Strconv.{ℤ, later}
use security_system_gsb.Pkg.Libraries.{Libraries, AccessClaims, RefreshClaims, Token}

unfoldable pub access_claims : ℕ → ℕ → ℕ → String → ℤ → AccessClaims
access_claims now user role username exp_min = record {
  user_id = user;
  username = username;
  role_id = role;
  expires_at = later now exp_min 60;
  issued_at = now;
  issuer = "security-platform";
}

unfoldable pub refresh_claims : ℕ → ℕ → ℤ → RefreshClaims
refresh_claims now session exp_day = record {
  session_id = session;
  expires_at = later now exp_day 86400;
  issued_at = now;
  issuer = "security-platform";
}

unfoldable pub hmac_key_func : String → Bool → Result String
hmac_key_func secret is_hmac = if is_hmac then ok secret else err (errorf "不支持的签名算法")

abbrev valid_claims : {C : Type 0} → String → Result (Token C) → Result C
valid_claims complaint (err e) = err e
valid_claims complaint (ok token) = if token.valid then ok token.claims else err (errorf complaint)

module _ (lib : Libraries) where
  unfoldable pub generate_access : ℕ → ℕ → ℕ → String → String → ℤ → Result String
  unfolding access_claims
  generate_access now user role username secret exp_min =
      lib.sign_access (access_claims now user role username exp_min) secret

  unfoldable pub generate_refresh : ℕ → ℕ → String → ℤ → Result String
  unfolding refresh_claims
  generate_refresh now session secret exp_day =
      lib.sign_refresh (refresh_claims now session exp_day) secret

  unfoldable pub parse_access : ℕ → String → String → Result AccessClaims
  unfolding hmac_key_func
  parse_access now token secret =
      valid_claims "令牌格式不合法" (lib.parse_access (hmac_key_func secret) now token)

  unfoldable pub parse_refresh : ℕ → String → String → Result RefreshClaims
  unfolding hmac_key_func
  parse_refresh now token secret =
      valid_claims "刷新令牌格式不合法" (lib.parse_refresh (hmac_key_func secret) now token)
