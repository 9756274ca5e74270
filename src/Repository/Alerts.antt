-- ===== src/Repository/Alerts.antt =====
-- internal/repository/alert_repo.go, over `security_alerts` and `alert_comments`.
use security_system_gsb.Common.{
  ℕ, ◌+◌, String, contains, Bool, true, false, not, ◌&&◌, ◌||◌, Option, none, some, List, [], ◌∷◌,
  ◌++◌, map, ltb, ◌==◌, nat_eq, string_eq, if◌then◌else◌, find, has_key, select, update_where,
  count_where, any_where, order_by,
}
use security_system_gsb.Error.{library, ok, err}
use security_system_gsb.World.{World, Exec, statement, one_row, gets, modify}
use security_system_gsb.Model.User.{User}
use security_system_gsb.Model.Alert.{
  SecurityAlert, AlertComment, AlertQueryParams, status_resolved, status_closed,
}
use security_system_gsb.Repository.Paging.{Paged, paged, offset_bits, page_size_within}

abbrev pub alert_id : SecurityAlert → ℕ
alert_id a = a.id

abbrev pub user_exists : ℕ → World → Bool
user_exists id w = any_where (λ (u : User). u.id == id) w.users

-- The columns that an INSERT leaves out have the defaults of the schema: the tags too.
abbrev pub inserted : SecurityAlert → World → SecurityAlert
inserted a w = record a {
  id = w.serials.alerts + 1;
  assignee_id = none;
  sla_breached = false;
  escalation_count = 0;
  resolved_at = none;
  closed_at = none;
  tags = [];
  created_at = w.now;
  updated_at = w.now;
}

-- Returns the new row's identifier.
unfoldable pub create : SecurityAlert → Exec ℕ
create a = statement λ w.
    if not (user_exists a.creator_id w) then (err (library "foreign_key_violation"), w) else (
      ok (w.serials.alerts + 1),
      record w {
        alerts = w.alerts ++ inserted a w ∷ [];
        serials = record (w.serials) { alerts = w.serials.alerts + 1 };
      },
    )

-- The query does not read the tags.
abbrev pub scanned : SecurityAlert → SecurityAlert
scanned a = record a { tags = [] }

abbrev pub scan : Option SecurityAlert → Option SecurityAlert
scan none = none
scan (some a) = some (scanned a)

unfoldable pub find_by_id : ℕ → Exec SecurityAlert
find_by_id id = statement (λ w. (one_row (scan (find (has_key alert_id id) w.alerts)), w))

-- The SET clause: the source, the deadline and the tags are not in it.
unfoldable pub assign_columns : ℕ → SecurityAlert → SecurityAlert → SecurityAlert
assign_columns now a row = record row {
  title = a.title;
  description = a.description;
  severity = a.severity;
  status = a.status;
  assignee_id = a.assignee_id;
  sla_breached = a.sla_breached;
  escalation_count = a.escalation_count;
  resolved_at = a.resolved_at;
  closed_at = a.closed_at;
  updated_at = now;
}

abbrev pub assignee_exists : Option ℕ → World → Bool
assignee_exists none w = true
assignee_exists (some id) w = user_exists id w

unfoldable pub update : ℕ → SecurityAlert → Exec (Unit {0})
unfolding assign_columns
update id a = statement λ w.
    if any_where (has_key alert_id id) w.alerts && not (assignee_exists a.assignee_id w)
    then (err (library "foreign_key_violation"), w)
    else (
      ok tt,
      record w { alerts = update_where (has_key alert_id id) (assign_columns w.now a) w.alerts },
    )

-- status NOT IN (resolved, closed)
abbrev pub is_open : SecurityAlert → Bool
is_open a = not (a.status == status_resolved || a.status == status_closed)

abbrev pub is_overdue : ℕ → SecurityAlert → Bool
is_overdue now a = ltb a.sla_deadline now && (not a.sla_breached && is_open a)

abbrev pub breach : ℕ → SecurityAlert → SecurityAlert
breach now a = record a { sla_breached = true; updated_at = now }

-- Returns the number of rows that it marks.
unfoldable pub check_and_mark_sla_breaches : Exec ℕ
check_and_mark_sla_breaches = statement λ w. (
  ok (count_where (is_overdue w.now) w.alerts),
  record w { alerts = update_where (is_overdue w.now) (breach w.now) w.alerts },
)

-- The query reads nine columns; the other fields of the struct keep their zero values.
unfoldable pub scanned_target : SecurityAlert → SecurityAlert
scanned_target a = record a {
  description = "";
  source = "";
  sla_breached = false;
  resolved_at = none;
  closed_at = none;
  tags = [];
  updated_at = 0;
}

abbrev pub is_target : SecurityAlert → Bool
is_target a = a.sla_breached && is_open a

unfoldable pub find_sla_breached_unnotified : Exec (List SecurityAlert)
unfolding scanned_target
find_sla_breached_unnotified = statement (
    gets λ w.
      map scanned_target (order_by (λ a b. ltb b.severity a.severity) (select is_target w.alerts)))

-- Returns the new row's identifier.
unfoldable pub add_comment : AlertComment → Exec ℕ
add_comment c = statement λ w.
    if not (any_where (has_key alert_id c.alert_id) w.alerts && user_exists c.author_id w)
    then (err (library "foreign_key_violation"), w)
    else (
      ok (w.serials.comments + 1),
      record w {
        comments = w.comments ++ record c { id = w.serials.comments + 1; created_at = w.now } ∷ [];
        serials = record (w.serials) { comments = w.serials.comments + 1 };
      },
    )

unfoldable pub list_comments : ℕ → Exec (List AlertComment)
list_comments id = statement (
    gets λ w.
      order_by (λ a b. ltb a.created_at b.created_at)
        (select (λ (c : AlertComment). c.alert_id == id) w.comments))

abbrev is_assigned_to : ℕ → Option ℕ → Bool
is_assigned_to id none = false
is_assigned_to id (some assignee) = assignee == id

abbrev has_flag : Option Bool → Bool → Bool
has_flag none flag = true
has_flag (some true) flag = flag
has_flag (some false) flag = not flag

-- The conditions that the code puts into WHERE.
unfoldable pub matches : AlertQueryParams → SecurityAlert → Bool
matches q a =
    (q.severity == 0 || a.severity == q.severity)
    && ((q.status == 0 || a.status == q.status)
        && ((q.assignee_id == 0 || is_assigned_to q.assignee_id a.assignee_id)
            && ((q.source == "" || a.source == q.source)
                && has_flag q.sla_breached a.sla_breached)))

-- ORDER BY severity DESC, created_at DESC
abbrev pub before : SecurityAlert → SecurityAlert → Bool
before a b =
    ltb b.severity a.severity || (a.severity == b.severity && ltb b.created_at a.created_at)

-- The query reads twelve columns.
abbrev pub scanned_row : SecurityAlert → SecurityAlert
scanned_row a = record a { description = ""; resolved_at = none; closed_at = none; tags = [] }

-- At most 100 rows, 20 where the request asks for none or more.
unfoldable pub list : AlertQueryParams → Exec (Paged SecurityAlert)
unfolding matches
list q =
    let size = page_size_within 100 20 q.page_size in
    paged (offset_bits q.page size) size (λ w. select (matches q) w.alerts) (order_by before)
      scanned_row

-- array(SELECT DISTINCT unnest(tags || $1)), whose order the query leaves open: each tag where it
-- comes first.
abbrev distinct_from : List String → List String → List String
distinct_from seen [] = seen
distinct_from seen (t ∷ ts) = distinct_from (if contains t seen then seen else seen ++ t ∷ []) ts

unfoldable pub add_tags : ℕ → List String → Exec (Unit {0})
unfolding contains
add_tags id tags = statement (
    modify λ w. record w {
      alerts =
          update_where (has_key alert_id id)
            (λ a. record a { tags = distinct_from [] (a.tags ++ tags); updated_at = w.now })
            w.alerts;
    })
