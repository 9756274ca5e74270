-- ===== src/Repository/Sessions.antt =====
-- internal/repository/session_repo.go, over the table `sessions`.
use security_system_gsb.Common.{
  ℕ, ◌+◌, String, Bool, true, false, not, ◌&&◌, none, some, List, map, select, order_by, [], ◌∷◌,
  ◌++◌, ltb, ◌==◌, nat_eq, string_eq, if◌then◌else◌, find, has_key, update_where, any_where,
}
use security_system_gsb.Error.{library, ok, err}
use security_system_gsb.World.{World, Exec, statement, one_row, gets, modify}
use security_system_gsb.Model.User.{User}
use security_system_gsb.Model.Session.{Session}

abbrev pub session_id : Session → ℕ
session_id s = s.id

abbrev pub has_token : String → Session → Bool
has_token token s = s.refresh_token == token

abbrev pub inserted : Session → World → Session
inserted s w = record s {
  id = w.serials.sessions + 1;
  is_revoked = false;
  revoked_at = none;
  created_at = w.now;
}

-- Returns the new row's identifier.
unfoldable pub create : Session → Exec ℕ
create s = statement λ w.
    if any_where (has_token s.refresh_token) w.sessions
    then (err (library "unique_violation"), w)
    else if not (any_where (λ (u : User). u.id == s.user_id) w.users)
    then (err (library "foreign_key_violation"), w)
    else (
      ok (w.serials.sessions + 1),
      record w {
        sessions = w.sessions ++ inserted s w ∷ [];
        serials = record (w.serials) { sessions = w.serials.sessions + 1 };
      },
    )

unfoldable pub update_refresh_token : ℕ → String → Exec (Unit {0})
update_refresh_token id token = statement λ w.
    if any_where (has_key session_id id) w.sessions
      && any_where (λ s. not (s.id == id) && s.refresh_token == token) w.sessions
    then (err (library "unique_violation"), w)
    else (
      ok tt,
      record w {
        sessions =
            update_where (has_key session_id id) (λ s. record s { refresh_token = token })
              w.sessions;
      },
    )

unfoldable pub find_by_refresh_token : String → Exec Session
find_by_refresh_token token = statement (λ w. (one_row (find (has_token token) w.sessions), w))

abbrev pub revoked : ℕ → Session → Session
revoked now s = record s { is_revoked = true; revoked_at = some now }

unfoldable pub revoke : ℕ → Exec (Unit {0})
revoke id = statement (
    modify
      λ w. record w { sessions = update_where (has_key session_id id) (revoked w.now) w.sessions })

-- user_id=$2 AND is_revoked=false AND expires_at > $1
abbrev pub is_active_of : ℕ → ℕ → Session → Bool
is_active_of user now s = s.user_id == user && (not s.is_revoked && ltb now s.expires_at)

unfoldable pub revoke_all_by_user : ℕ → Exec (Unit {0})
revoke_all_by_user user = statement (
    modify λ w. record w {
      sessions = update_where (is_active_of user w.now) (revoked w.now) w.sessions;
    })

-- The query does not read the token and the time of revocation.
abbrev scanned_row : Session → Session
scanned_row s = record s { refresh_token = ""; revoked_at = none }

-- ORDER BY created_at DESC
unfoldable pub list_active_by_user : ℕ → Exec (List Session)
list_active_by_user user = statement (
    gets λ w. map scanned_row (
      order_by (λ a b. ltb b.created_at a.created_at)
        (select (is_active_of user w.now) w.sessions)))
