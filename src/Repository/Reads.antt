-- ===== src/Repository/Reads.antt =====
-- The queries that only read: each answers with its rows, or fails as its statement does.
use security_system_gsb.Common.{ℕ, String, ◌≡◌, ◌⊎◌, Option, List, find, has_key, select, nat_eq}
use security_system_gsb.Error.{library, Result, ok, err}
use security_system_gsb.World.{World, Exec, one_row}
use security_system_gsb.World.Statements.{with_faults, statement_cases}
use security_system_gsb.Repository.Users
use security_system_gsb.Repository.Users.{user_id, has_username}
use security_system_gsb.Repository.Roles
use security_system_gsb.Repository.Roles.{role_id, grants}
use security_system_gsb.Repository.Alerts
use security_system_gsb.Repository.Alerts.{alert_id, scan}
use security_system_gsb.Repository.Sessions
use security_system_gsb.Repository.Sessions.{has_token}

-- `m` gives `r`, or the database's error, and uses up faults only.
abbrev pub Answers {ℓ} : {A : Type ℓ} → Exec A → Result A → World → Type ℓ
Answers m r w =
    ((fs : List (Option String)) × (m w ≡ (r, with_faults w fs)))
    ⊎ ((fs : List (Option String)) × (text : String) × (m w
          ≡ (err (library text), with_faults w fs)))

pub find_role :
    (id : ℕ) (w : World)
    → Answers (Roles.find_by_id id) (one_row (find (has_key role_id id) w.roles)) w
unfolding Roles.find_by_id
find_role id w = statement_cases (λ v. (one_row (find (has_key role_id id) v.roles), v)) w

pub role_permissions :
    (id : ℕ) (w : World)
    → Answers
        (Roles.get_permissions id)
        (ok (select (grants id w.role_permissions) w.permissions))
        w
unfolding Roles.get_permissions
role_permissions id w =
    statement_cases (λ v. (ok (select (grants id v.role_permissions) v.permissions), v)) w

pub find_user :
    (id : ℕ) (w : World)
    → Answers (Users.find_by_id id) (one_row (find (has_key user_id id) w.users)) w
unfolding Users.find_by_id
find_user id w = statement_cases (λ v. (one_row (find (has_key user_id id) v.users), v)) w

pub find_username :
    (name : String) (w : World)
    → Answers (Users.find_by_username name) (one_row (find (has_username name) w.users)) w
unfolding Users.find_by_username
find_username name w = statement_cases (λ v. (one_row (find (has_username name) v.users), v)) w

pub find_token :
    (token : String) (w : World)
    → Answers (Sessions.find_by_refresh_token token) (one_row (find (has_token token) w.sessions)) w
unfolding Sessions.find_by_refresh_token
find_token token w = statement_cases (λ v. (one_row (find (has_token token) v.sessions), v)) w

pub find_alert :
    (id : ℕ) (w : World)
    → Answers (Alerts.find_by_id id) (one_row (scan (find (has_key alert_id id) w.alerts))) w
unfolding Alerts.find_by_id
find_alert id w = statement_cases (λ v. (one_row (scan (find (has_key alert_id id) v.alerts)), v)) w
