-- ===== src/Service/Users.antt =====
-- internal/service/user_service.go
pub mod Permissions
pub mod Assigned
use security_system_gsb.Common.{ℕ, String, Bool, true, false, not, none, ltb, if◌then◌else◌}
use security_system_gsb.Error.{Error, errorf, is_not_found, Result, ok, err}
use security_system_gsb.World.{World, Exec, pure, attempt, guard, ◌>>=◌, ◌>>◌}
use security_system_gsb.Model.User.{User, CreateUserRequest, UpdateUserRequest, user_status_enabled}
use security_system_gsb.Model.Role.{Role}
use security_system_gsb.Repository.Users
use security_system_gsb.Repository.Paging.{Paged, page_size_within, offset_bits}
use security_system_gsb.Repository.Roles
use security_system_gsb.Pkg.Libraries.{Libraries}
use security_system_gsb.Pkg.Crypto.{hash_password}
use security_system_gsb.Service.Rbac

-- Only a missing row is an error here.
abbrev is_missing : Result Role → Bool
is_missing (ok r) = false
is_missing (err e) = is_not_found e

abbrev pub new_user : CreateUserRequest → String → User
new_user req hash = record {
  id = 0;
  username = req.username;
  password_hash = hash;
  email = req.email;
  role_id = req.role_id;
  status = user_status_enabled;
  is_probation = false;
  failed_login_count = 0;
  locked_until = none;
  last_login_at = none;
  created_at = 0;
  updated_at = 0;
}

unfoldable pub create : Libraries → CreateUserRequest → Exec User
create lib req = do
  found ← attempt (Roles.find_by_id req.role_id)
  guard (not (is_missing found)) (errorf "指定的角色不存在")
  hash ← hash_password lib req.password
  id ← Users.create (new_user req hash)
  pure (record (new_user req hash) { id = id })

unfoldable pub get_by_id : ℕ → Exec User
get_by_id id = Users.find_by_id id

unfoldable pub update : ℕ → UpdateUserRequest → Exec (Unit {0})
update id req = do Users.update id req; if ltb 0 req.role_id then Rbac.invalidate id else pure tt

unfoldable pub list : ℕ → ℕ → Exec (Paged User)
list page page_size =
    let size = page_size_within 100 20 page_size in Users.list (offset_bits page size) size
