-- ===== src/Tests/Data.antt =====
-- A small database, and libraries that stand in for bcrypt, SHA-256 and JWT.
use security_system_gsb.Common.{ℕ, false, none, some, [], ◌∷◌, ◌==◌, string_eq}
use security_system_gsb.Strconv.{pos}
use security_system_gsb.Error.{◌++◌, ok, err, library}
use security_system_gsb.World.{World}
use security_system_gsb.Model.User.{User, LoginRequest}
use security_system_gsb.Model.Role.{Role}
use security_system_gsb.Model.Alert.{SecurityAlert}
use security_system_gsb.Model.Audit.{AuditLogEntry}
use security_system_gsb.Pkg.Libraries.{Libraries}
use security_system_gsb.Pkg.Ratelimit.{Limiter}
use security_system_gsb.Service.Auth.{AuthService}

-- A hash is the password behind a mark, and every token is refused.
abbrev pub libs : Libraries
libs = record {
  generate_from_password = λ n password cost. ok ("#" ++ password);
  compare_hash_and_password = λ hash password. hash == ("#" ++ password);
  sha256_hex = λ text. "h" ++ text;
  random_hex = λ n count. ok "00";
  sign_access = λ claims key. ok ("a" ++ claims.username);
  sign_refresh = λ claims key. ok "r";
  parse_access = λ key now token. err (library "malformed");
  parse_refresh = λ key now token. err (library "malformed");
}

abbrev pub service : AuthService
service = record { jwt_access = "k"; jwt_refresh = "l"; access_exp = pos 15; refresh_exp = pos 7 }

abbrev pub ann : User
ann = record {
  id = 1;
  username = "ann";
  password_hash = "#secret";
  email = "ann@example.org";
  role_id = 1;
  status = 1;
  is_probation = false;
  failed_login_count = 4;
  locked_until = none;
  last_login_at = none;
  created_at = 0;
  updated_at = 0;
}

-- Two roles that are each other's parent.
abbrev pub analyst : Role
analyst = record {
  id = 1;
  name = "analyst";
  display_name = "Analyst";
  parent_id = some 2;
  created_at = 0;
}

abbrev pub lead : Role
lead = record { id = 2; name = "lead"; display_name = "Lead"; parent_id = some 1; created_at = 0 }

abbrev pub alert : ℕ → ℕ → SecurityAlert
alert id status = record {
  id = id;
  title = "port scan";
  description = "from outside";
  source = "ids";
  severity = 2;
  status = status;
  assignee_id = none;
  creator_id = 1;
  sla_deadline = 50;
  sla_breached = false;
  escalation_count = 2;
  resolved_at = none;
  closed_at = none;
  tags = [];
  created_at = 0;
  updated_at = 0;
}

-- A new alert that is overdue, and a closed one.
abbrev pub world : World
world = record {
  users = ann ∷ [];
  roles = analyst ∷ lead ∷ [];
  permissions = [];
  role_permissions = [];
  sessions = [];
  alerts = alert 1 1 ∷ alert 2 5 ∷ [];
  comments = [];
  audit_logs = [];
  api_keys = [];
  serials = record {
    users = 1;
    roles = 2;
    sessions = 0;
    alerts = 2;
    comments = 0;
    audit_logs = 0;
    api_keys = 0;
  };
  perm_cache = [];
  log_chan = [];
  now = 100;
  entropy = 0;
  faults = [];
}

abbrev pub right : LoginRequest
right = record { username = "ann"; password = "secret" }

abbrev pub wrong : LoginRequest
wrong = record { username = "ann"; password = "guess" }

abbrev pub entry : AuditLogEntry
entry = record {
  user_id = 1;
  username = "ann";
  action = "login";
  resource = "auth";
  resource_id = "";
  detail = "";
  ip_address = "10.0.0.1";
  user_agent = "";
  result = "success";
}

abbrev pub limiter : Limiter
limiter = record { records = []; limit = 2; duration = 60 }
