-- ===== src/Tests/Accounts.antt =====
-- Roles and logins on the world of `Data`.
use security_system_gsb.Common.{
  All, sym, ap, ◌≡◌, ◌≤◌, ◌<◌, ◌≢◌, refl, true, false, [], some, any_where, has_key, none, ◌∷◌,
  update_where, arith, find, nat_eq, string_eq,
}
use security_system_gsb.Error.{ok, err, account_locked}
use security_system_gsb.World.{World, statement}
use security_system_gsb.Model.User.{
  User, ChangePasswordRequest, is_locked, user_status_disabled, user_status_enabled,
}
use security_system_gsb.Repository.Users
use security_system_gsb.Repository.Users.{has_username, user_id}
use security_system_gsb.Repository.Sessions
use security_system_gsb.Pkg.Crypto.{check_password, hash_password}
use security_system_gsb.Pkg.Jwt.{generate_access, generate_refresh, parse_refresh}
use security_system_gsb.Service.Rbac.{resolve_inherited_perms, walk_fuel}
use security_system_gsb.Service.Rbac.Termination.{Reads, resolve_inherited_perms-Reads}
use security_system_gsb.Service.Auth.{
  LoggedIn, login, refresh, change_password, check_credentials, issue_tokens,
}
use security_system_gsb.Service.Auth.Login.{login_sound}
use security_system_gsb.Service.Auth.Lockout.{lockout}
use security_system_gsb.Model.Session.{Session, TokenPair, RefreshRequest, is_valid}
use security_system_gsb.Repository.Sessions.{has_token}
use security_system_gsb.Pkg.Libraries.{Libraries, RefreshClaims}
use security_system_gsb.Service.Auth.Rotation.{refresh_sound}
use security_system_gsb.Service.Auth.Passwords.{change_password_revokes, Changed, Over}
use security_system_gsb.Service.Auth.SingleUse.{refresh_once}
use security_system_gsb.Tests.Data.{world, ann, libs, service, right, wrong}

resolve_inherited_perms-Reads_example : Reads (resolve_inherited_perms (walk_fuel world) 1 []) world
resolve_inherited_perms-Reads_example = resolve_inherited_perms-Reads 1 world

found : find (has_username "ann") world.users ≡ some ann
unfolding find
found = refl

free : is_locked 100 ann ≡ false
unfolding is_locked
free = refl

refused : check_password libs "#secret" "guess" ≡ false
unfolding check_password
refused = refl

abbrev logged_in : LoggedIn
logged_in = record {
  pair = record { access_token = "aann"; refresh_token = "r"; expires_at = 1000 };
  user = ann;
}

let_in : (login libs service right "10.0.0.1" "ua" world).0 ≡ ok logged_in
unfolding login Users.find_by_username statement find check_credentials is_locked check_password
    Users.record_login_success issue_tokens Sessions.create generate_refresh
    Sessions.update_refresh_token generate_access any_where update_where
let_in = refl

login_sound_example :
    (find (has_username "ann") world.users ≡ some ann)
    × (ann.status ≢ user_status_disabled)
    × (is_locked 100 ann ≡ false)
    × (check_password libs "#secret" "secret" ≡ true)
login_sound_example = login_sound libs service right "10.0.0.1" "ua" world logged_in let_in

in_time : 1000 < 1900
in_time = omega arith

many : 4 ≤ 4
many = omega arith

lockout_example :
    (login libs service right "10.0.0.2" "other"
      (record (login libs service wrong "10.0.0.1" "ua" world).1 { now = 1000 })).0
    ≡ err account_locked
lockout_example =
    lockout libs service wrong "10.0.0.1" "ua" ann world refl found refl free refused many 1000
      "secret" "10.0.0.2" "other" in_time

-- Libraries that accept every refresh token.
abbrev trusting : Libraries
trusting = record libs {
  parse_refresh = λ key now token. ok (record {
    claims = record { session_id = 1; expires_at = 5000; issued_at = 0; issuer = "" };
    valid = true;
  });
}

abbrev session : Session
session = record {
  id = 1;
  user_id = 1;
  refresh_token = "old";
  user_agent = "ua";
  ip_address = "10.0.0.1";
  is_revoked = false;
  expires_at = 5000;
  revoked_at = none;
  created_at = 0;
}

abbrev with_session : World
with_session = record world {
  sessions = session ∷ [];
  serials = record (world.serials) { sessions = 1 };
}

abbrev pair : TokenPair
pair = record { access_token = "aann"; refresh_token = "r"; expires_at = 1000 }

abbrev request : RefreshRequest
request = record { refresh_token = "old" }

rotated : (refresh trusting service request "10.0.0.1" "ua" with_session).0 ≡ ok pair
unfolding refresh Users.find_by_id Sessions.find_by_refresh_token Sessions.revoke is_valid statement
    find issue_tokens Sessions.create generate_refresh Sessions.update_refresh_token generate_access
    any_where update_where parse_refresh
rotated = refl

refresh_sound_example :
    (claims : RefreshClaims) × (old : Session) × (u : User) × (parse_refresh trusting 100 "old" "l"
      ≡ ok claims)
    × (find (has_token "old") with_session.sessions ≡ some old)
    × (is_valid 100 old ≡ true)
    × (find (has_key user_id old.user_id) world.users ≡ some u)
    × (u.status ≡ user_status_enabled)
refresh_sound_example =
    refresh_sound trusting service request "10.0.0.1" "ua" with_session pair rotated

numbered :
    (old : Session)
    → find (has_token "old") with_session.sessions ≡ some old
    → old.id ≤ with_session.serials.sessions
unfolding find
numbered old here =
    let same : session ≡ old = cc in
    let one : old.id ≡ 1 = ap (λ r. r.id) (sym same) in omega (arith, one)

refresh_once_example :
    (refresh trusting service request "10.0.0.1" "ua"
      (record (refresh trusting service request "10.0.0.1" "ua" with_session).1 {
        now = 200;
        faults = [];
      })).0
    ≢ ok pair
refresh_once_example =
    refresh_once trusting service request "10.0.0.1" "ua" with_session pair 200 [] numbered rotated
      pair

abbrev to_better : ChangePasswordRequest
to_better = record { old_password = "secret"; new_password = "better-one" }

changed : (change_password libs service 1 to_better with_session).0 ≡ ok tt
unfolding change_password Users.find_by_id statement find check_password hash_password
    Users.update_password Sessions.revoke_all_by_user
changed = refl

change_password_revokes_example :
    let v = (change_password libs service 1 to_better with_session).1 in
    Changed libs 1 to_better with_session v × All (Over 1 with_session.now) v.sessions
change_password_revokes_example =
    change_password_revokes libs service 1 to_better with_session refl changed
