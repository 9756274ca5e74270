-- ===== src/Service/Auth.antt =====
-- internal/service/auth_service.go
pub mod Login
pub mod Lockout
pub mod Passwords
pub mod Rotation
pub mod Spent
pub mod SingleUse
use security_system_gsb.Common.{
  ℕ, ◌+◌, ◌*◌, String, Bool, true, false, not, none, ◌==◌, nat_eq, if◌then◌else◌,
}
use security_system_gsb.Strconv.{ℤ, later}
use security_system_gsb.Error.{
  invalid_credentials, account_locked, account_disabled, invalid_token, Result, ok, err,
}
use security_system_gsb.World.{World, Exec, pure, raise, lift, gets, attempt, guard, ◌>>=◌, ◌>>◌}
use security_system_gsb.Model.User.{
  User, LoginRequest, ChangePasswordRequest, user_status_enabled, user_status_disabled, is_locked,
}
use security_system_gsb.Model.Session.{Session, TokenPair, RefreshRequest, is_valid}
use security_system_gsb.Repository.Users
use security_system_gsb.Repository.Sessions
use security_system_gsb.Pkg.Libraries.{Libraries, RefreshClaims}
use security_system_gsb.Pkg.Crypto.{hash_password, check_password}
use security_system_gsb.Pkg.Jwt.{generate_access, generate_refresh, parse_refresh}
use security_system_gsb.Service.Alerts.{or_missing}

abbrev pub max_login_attempts : ℕ
max_login_attempts = 5

pub record AuthService : Type 0 where
  pub jwt_access : String
  pub jwt_refresh : String
  pub access_exp : ℤ
  pub refresh_exp : ℤ

pub record LoggedIn : Type 0 where
  pub pair : TokenPair
  pub user : User

abbrev pub pending_token : String
pending_token = "pending"

abbrev pub new_session : AuthService → ℕ → ℕ → String → String → Session
new_session s now user ip ua = record {
  id = 0;
  user_id = user;
  refresh_token = pending_token;
  user_agent = ua;
  ip_address = ip;
  is_revoked = false;
  expires_at = later now s.refresh_exp 86400;
  revoked_at = none;
  created_at = 0;
}

-- ErrInvalidToken in place of any error.
abbrev pub or_invalid_token {ℓ} : {A : Type ℓ} → Result A → Result A
or_invalid_token (ok a) = ok a
or_invalid_token (err e) = err invalid_token

-- The result of the recording is dropped.
abbrev refuse : LoginRequest → Exec (Unit {0})
refuse req = do
  recorded ← attempt (Users.record_login_failure req.username max_login_attempts)
  raise invalid_credentials

module _ (lib : Libraries) where
  -- The checks of `Login` on the user that it finds.
  unfoldable pub check_credentials : LoginRequest → User → Exec (Unit {0})
  check_credentials req user = do
    now ← gets (λ w. w.now)
    guard (not (user.status == user_status_disabled)) account_disabled
    guard (not (is_locked now user)) account_locked
    if check_password lib user.password_hash req.password then pure tt else refuse req

module _ (lib : Libraries) (s : AuthService) where
  -- The end of `Login` and of `Refresh`: a session with a placeholder for its token, the token
  -- made from its identifier, and the access token.
  unfoldable pub issue_tokens : User → String → String → Exec TokenPair
  issue_tokens user ip ua = do
    now ← gets (λ w. w.now)
    id ← Sessions.create (new_session s now user.id ip ua)
    refresh ← lift (generate_refresh lib now id s.jwt_refresh s.refresh_exp)
    Sessions.update_refresh_token id refresh
    access ←
        lift (generate_access lib now user.id user.role_id user.username s.jwt_access s.access_exp)
    pure (record {
      access_token = access;
      refresh_token = refresh;
      expires_at = later now s.access_exp 60;
    })

  unfoldable pub login : LoginRequest → String → String → Exec LoggedIn
  login req ip ua = do
    found ← attempt (Users.find_by_username req.username)
    user ← lift (or_missing invalid_credentials found)
    check_credentials lib req user
    recorded ← attempt (Users.record_login_success user.id)
    pair ← issue_tokens user ip ua
    pure (record { pair = pair; user = user })

  unfoldable pub refresh : RefreshRequest → String → String → Exec TokenPair
  refresh req ip ua = do
    now ← gets (λ w. w.now)
    claims ← lift (or_invalid_token (parse_refresh lib now req.refresh_token s.jwt_refresh))
    found ← attempt (Sessions.find_by_refresh_token req.refresh_token)
    old ← lift (or_missing invalid_token found)
    guard (is_valid now old) invalid_token
    user ← Users.find_by_id old.user_id
    guard (user.status == user_status_enabled) account_disabled
    Sessions.revoke old.id
    issue_tokens user ip ua

  unfoldable pub change_password : ℕ → ChangePasswordRequest → Exec (Unit {0})
  change_password id req = do
    user ← Users.find_by_id id
    guard (check_password lib user.password_hash req.old_password) invalid_credentials
    hash ← hash_password lib req.new_password
    Users.update_password id hash
    Sessions.revoke_all_by_user id

unfoldable pub logout : ℕ → Exec (Unit {0})
logout session = Sessions.revoke session

unfoldable pub logout_all : ℕ → Exec (Unit {0})
logout_all user = Sessions.revoke_all_by_user user
