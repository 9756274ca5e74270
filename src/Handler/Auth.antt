-- ===== src/Handler/Auth.antt =====
-- internal/handler/auth_handler.go
use security_system_gsb.Common.{ℕ, String, Option, none, some}
use security_system_gsb.Error.{Error, account_locked, account_disabled, message, Result, ok, err}
use security_system_gsb.Model.User.{LoginRequest, ChangePasswordRequest}
use security_system_gsb.Model.Session.{RefreshRequest}
use security_system_gsb.Model.Audit.{AuditLogEntry, audit_result_success, audit_result_failure}
use security_system_gsb.Http.{
  Context, Handler, Response, Part, reply, refuse, call, or_message, serve, caller_id, status_ok,
  status_bad_request, status_unauthorized, status_forbidden, tokens, done, ◌>>=◌, ◌>>◌,
}
use security_system_gsb.Pkg.Libraries.{Libraries}
use security_system_gsb.Service.Auth
use security_system_gsb.Service.Auth.{AuthService, LoggedIn}
use security_system_gsb.Handler.Calls.{entry_of, log_entry}

-- The entry of a login, which carries the user agent.
abbrev pub login_entry : Context → ℕ → String → String → String → AuditLogEntry
login_entry c user name detail result = record {
  user_id = user;
  username = name;
  action = "login";
  resource = "auth";
  resource_id = "";
  detail = detail;
  ip_address = c.client_ip;
  user_agent = c.user_agent;
  result = result;
}

abbrev pub login_status : Error → ℕ
login_status account_locked = status_forbidden
login_status account_disabled = status_forbidden
login_status _ = status_unauthorized

abbrev pub answer_login : LoginRequest → Context → Result LoggedIn → Part Response
answer_login req c (err e) = do
  log_entry (login_entry c 0 req.username (message e) audit_result_failure)
  refuse (login_status e) (message e)
answer_login req c (ok in_) = do
  log_entry (login_entry c in_.user.id in_.user.username "" audit_result_success)
  reply status_ok (tokens in_.pair)

module _ (lib : Libraries) (s : AuthService) where
  unfoldable pub login : Result LoginRequest → Handler
  login body c = serve do
    req ← or_message body status_bad_request
    r ← call (Auth.login lib s req c.client_ip c.user_agent)
    answer_login req c r

  unfoldable pub refresh : Result RefreshRequest → Handler
  refresh body c = serve do
    req ← or_message body status_bad_request
    r ← call (Auth.refresh lib s req c.client_ip c.user_agent)
    pair ← or_message r status_unauthorized
    reply status_ok (tokens pair)

unfoldable pub change_password : Libraries → AuthService → Result ChangePasswordRequest → Handler
change_password lib s body c = serve do
  req ← or_message body status_bad_request
  changed ← call (Auth.change_password lib s (caller_id c) req)
  or_message changed status_bad_request
  log_entry (entry_of c "change_password" "auth" "" "")
  reply status_ok (done "密码已修改，所有会话已注销")

-- The session that the context names is revoked, if it names one; an error is dropped.
abbrev pub revoke_session : Option ℕ → Part (Result (Unit {0}))
revoke_session none = call (λ w. (ok tt, w))
revoke_session (some id) = call (Auth.logout id)

unfoldable pub logout : Handler
logout c = serve do
  revoked ← revoke_session c.session_key
  log_entry (entry_of c "logout" "auth" "" "")
  reply status_ok (done "已退出登录")

unfoldable pub logout_all : Handler
logout_all c = serve do
  revoked ← call (Auth.logout_all (caller_id c))
  log_entry (entry_of c "logout_all" "auth" "" "")
  reply status_ok (done "已注销全部会话")
