-- ===== src/Tests/Desk.antt =====
-- Roles in a line, users with these roles, and requests of an administrator and of an analyst.
use security_system_gsb.Common.{String, true, none, some, [], ◌∷◌}
use security_system_gsb.Error.{ok}
use security_system_gsb.World.{World}
use security_system_gsb.Model.User.{User, CreateUserRequest, UpdateUserRequest}
use security_system_gsb.Model.Role.{Role}
use security_system_gsb.Model.Alert.{AlertQueryParams, CreateAlertRequest, UpdateAlertRequest}
use security_system_gsb.Pkg.Libraries.{Libraries, AccessClaims}
use security_system_gsb.Http.{Context}
use security_system_gsb.Tests.Data.{ann, alert, libs, world}

abbrev pub base : Role
base = record { id = 1; name = "base"; display_name = "Base"; parent_id = none; created_at = 0 }

abbrev pub officer : Role
officer = record {
  id = 2;
  name = "security_officer";
  display_name = "Officer";
  parent_id = some 1;
  created_at = 0;
}

abbrev pub admin : Role
admin = record {
  id = 3;
  name = "admin";
  display_name = "Admin";
  parent_id = some 2;
  created_at = 0;
}

abbrev pub bob : User
bob = record ann { id = 2; username = "bob"; email = "bob@example.org" }

-- The base role may read alerts. What the administrator may do is cached.
abbrev pub desk : World
desk = record world {
  users = record ann { role_id = 3 } ∷ bob ∷ [];
  roles = base ∷ officer ∷ admin ∷ [];
  permissions = record { id = 1; name = "alert:read"; description = "" } ∷ [];
  role_permissions = record { role_id = 1; permission_id = 1 } ∷ [];
  alerts = record (alert 1 1) { severity = 4 } ∷ alert 2 5 ∷ [];
  perm_cache =
      (1, "alert:read" ∷ "alert:write" ∷ "alert:assign" ∷ "user:read" ∷ "user:write" ∷ []) ∷ [];
}

abbrev pub claims_of_ann : AccessClaims
claims_of_ann = record {
  user_id = 1;
  username = "ann";
  role_id = 3;
  expires_at = 900;
  issued_at = 0;
  issuer = "hsp";
}

-- Every access token is ann's.
abbrev pub open_libs : Libraries
open_libs = record libs {
  parse_access = λ key now token. ok (record { claims = claims_of_ann; valid = true });
}

abbrev pub arriving : String → Context
arriving id = record {
  authorization = "Bearer t";
  x_api_key = "";
  client_ip = "10.0.0.1";
  user_agent = "curl";
  id_param = id;
  page_param = "1";
  page_size_param = "20";
  last_n_param = "10";
  user_key = none;
  username_key = none;
  role_key = none;
  session_key = none;
  api_key_id = none;
  api_key_owner = none;
  api_key_scopes = none;
}

abbrev pub from_ann : String → Context
from_ann id = record (arriving id) {
  user_key = some 1;
  username_key = some "ann";
  role_key = some 3;
}

abbrev pub new_hire : CreateUserRequest
new_hire = record {
  username = "eve";
  password = "long-enough";
  email = "eve@example.org";
  role_id = 2;
}

abbrev pub to_officer : UpdateUserRequest
to_officer = record { email = ""; role_id = 2; status = 1 }

abbrev pub everything : AlertQueryParams
everything = record {
  severity = 0;
  status = 0;
  assignee_id = 0;
  source = "";
  sla_breached = none;
  page = 1;
  page_size = 1;
}

abbrev pub intrusion : CreateAlertRequest
intrusion = record {
  title = "intrusion";
  description = "";
  source = "ids";
  severity = 4;
  tags = [];
}

abbrev pub to_resolved : UpdateAlertRequest
to_resolved = record {
  title = "";
  description = "";
  severity = 0;
  status = 4;
  assignee_id = none;
  tags = [];
}
