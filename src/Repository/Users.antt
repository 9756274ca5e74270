-- ===== src/Repository/Users.antt =====
-- internal/repository/user_repo.go, over the table `users`.
use security_system_gsb.Common.{
  ℕ, ltb, ◌+◌, ◌*◌, String, Bool, not, ◌&&◌, ◌||◌, none, some, [], ◌∷◌, ◌++◌, leb, ◌==◌, nat_eq,
  string_eq, if◌then◌else◌, find, has_key, order_by, update_where, any_where,
}
use security_system_gsb.Error.{library, ok, err}
use security_system_gsb.World.{World, Exec, statement, one_row, modify}
use security_system_gsb.Repository.Paging.{Paged, paged}
use security_system_gsb.Model.User.{
  User, UpdateUserRequest, user_status_enabled, user_status_locked,
}
use security_system_gsb.Model.Role.{Role}

abbrev pub user_id : User → ℕ
user_id u = u.id

abbrev pub has_username : String → User → Bool
has_username name u = u.username == name

abbrev pub role_exists : ℕ → World → Bool
role_exists id w = any_where (λ (r : Role). r.id == id) w.roles

unfoldable pub find_by_id : ℕ → Exec User
find_by_id id = statement (λ w. (one_row (find (has_key user_id id) w.users), w))

unfoldable pub find_by_username : String → Exec User
find_by_username name = statement (λ w. (one_row (find (has_username name) w.users), w))

-- The row of an INSERT: the status is always "enabled", and the columns left out have defaults.
abbrev pub inserted : User → World → User
inserted u w = record u {
  id = w.serials.users + 1;
  status = user_status_enabled;
  failed_login_count = 0;
  locked_until = none;
  last_login_at = none;
  created_at = w.now;
  updated_at = w.now;
}

abbrev clashes : User → World → Bool
clashes u w = any_where (λ v. v.username == u.username || v.email == u.email) w.users

-- Returns the new row's identifier.
unfoldable pub create : User → Exec ℕ
create u = statement λ w.
    if clashes u w
    then (err (library "unique_violation"), w)
    else if not (role_exists u.role_id w)
    then (err (library "foreign_key_violation"), w)
    else (
      ok (w.serials.users + 1),
      record w {
        users = w.users ++ inserted u w ∷ [];
        serials = record (w.serials) { users = w.serials.users + 1 };
      },
    )

-- `req.Status >= 0` holds of every status, so the column is always set.
unfoldable pub assign_columns : ℕ → UpdateUserRequest → User → User
assign_columns now req u = record u {
  email = if req.email == "" then u.email else req.email;
  role_id = if req.role_id == 0 then u.role_id else req.role_id;
  status = req.status;
  updated_at = now;
}

abbrev email_taken : ℕ → String → World → Bool
email_taken id email w =
    not (email == "") && any_where (λ u. not (u.id == id) && u.email == email) w.users

abbrev row_exists : ℕ → World → Bool
row_exists id w = any_where (has_key user_id id) w.users

unfoldable pub update : ℕ → UpdateUserRequest → Exec (Unit {0})
unfolding assign_columns
update id req = statement λ w.
    if row_exists id w && email_taken id req.email w
    then (err (library "unique_violation"), w)
    else if row_exists id w && not (req.role_id == 0) && not (role_exists req.role_id w)
    then (err (library "foreign_key_violation"), w)
    else (
      ok tt,
      record w { users = update_where (has_key user_id id) (assign_columns w.now req) w.users },
    )

unfoldable pub clear_failures : ℕ → User → User
clear_failures now u = record u {
  last_login_at = some now;
  failed_login_count = 0;
  locked_until = none;
  status = if u.status == user_status_locked then user_status_enabled else u.status;
  updated_at = now;
}

unfoldable pub record_login_success : ℕ → Exec (Unit {0})
unfolding clear_failures
record_login_success id = statement (
    modify
      λ w. record w { users = update_where (has_key user_id id) (clear_failures w.now) w.users })

-- 30 minutes.
abbrev pub lock_duration : ℕ
lock_duration = 30 * 60

unfoldable pub count_failure : ℕ → ℕ → User → User
count_failure now max_attempts u =
    let reached = leb max_attempts (u.failed_login_count + 1) in
    record u {
      failed_login_count = u.failed_login_count + 1;
      locked_until = if reached then some (now + lock_duration) else u.locked_until;
      status = if reached then user_status_locked else u.status;
      updated_at = now;
    }

unfoldable pub record_login_failure : String → ℕ → Exec (Unit {0})
unfolding count_failure
record_login_failure name max_attempts = statement (
    modify λ w. record w {
      users = update_where (has_username name) (count_failure w.now max_attempts) w.users;
    })

unfoldable pub update_password : ℕ → String → Exec (Unit {0})
update_password id hash = statement (
    modify λ w. record w {
      users =
          update_where (has_key user_id id)
            (λ u. record u { password_hash = hash; updated_at = w.now }) w.users;
    })

-- The query does not read the hash of the password, the count of failures and the lock.
abbrev pub scanned_row : User → User
scanned_row u = record u { password_hash = ""; failed_login_count = 0; locked_until = none }

unfoldable pub list : ℕ → ℕ → Exec (Paged User)
list offset limit = paged offset limit (λ w. w.users) (order_by λ a b. ltb a.id b.id) scanned_row
