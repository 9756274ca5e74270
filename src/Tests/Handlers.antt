-- ===== src/Tests/Handlers.antt =====
-- The handlers on the desk: users, alerts, and what they refuse.
use security_system_gsb.Common.{
  ℕ, ◌≡◌, ◌≢◌, ◌<◌, ◌⊎◌, refl, true, false, some, [], ◌∷◌, nat_eq, string_eq, arith, find, select,
  order_by, any_where, update_where, contains, has_key, All,
}
use security_system_gsb.Error.{ok}
use security_system_gsb.World.{statement}
use security_system_gsb.Model.User.{User, CreateUserRequest}
use security_system_gsb.Model.Alert.{SecurityAlert, CreateAlertRequest, severity_high}
use security_system_gsb.Http.{alerts, status_internal_error}
use security_system_gsb.Http.Success.{Success}
use security_system_gsb.Strconv.{ℤ, pos, to_nat, parse_int, magnitude, digits_from}
use security_system_gsb.Repository.Users as UserRows
use security_system_gsb.Repository.Users.{user_id}
use security_system_gsb.Repository.Alerts as AlertRows
use security_system_gsb.Repository.Alerts.{alert_id}
use security_system_gsb.Repository.Roles as RoleRows
use security_system_gsb.Service.Rbac.{
  get, has_permission, role_rank, rank_from, invalidate, get_role_by_name,
}
use security_system_gsb.Repository.Paging.{paged}
use security_system_gsb.Service.Rbac.Ranks.{depth}
use security_system_gsb.Service.Users as UserService
use security_system_gsb.Service.Alerts as AlertService
use security_system_gsb.Service.Alerts.{transition_allowed, valid_transitions}
use security_system_gsb.Service.Audit
use security_system_gsb.Pkg.Crypto.{hash_password}
use security_system_gsb.Handler.Calls.{permits, rank_of, is_low_rank, officer_rank}
use security_system_gsb.Handler.Users
use security_system_gsb.Handler.Alerts
use security_system_gsb.Handler.Escalation.{create_below, update_below}
use security_system_gsb.Handler.Visibility.{MaySee, get-MaySee, list-MaySee}
use security_system_gsb.Handler.Probation.{create-Probation, assign-Probation}
use security_system_gsb.Handler.Transitions.{update_transition}
use security_system_gsb.Tests.Data.{libs, alert}
use security_system_gsb.Tests.Desk.{
  desk, bob, from_ann, new_hire, to_officer, everything, intrusion, to_resolved,
}

hired : (Users.create libs (ok new_hire) (from_ann "") desk).0.status ≡ 201
unfolding Users.create Users.outranks permits rank_of has_permission get contains role_rank
    rank_from RoleRows.find_by_id statement find UserService.create hash_password UserRows.create
    any_where
hired = refl

hired_Success : Success (Users.create libs (ok new_hire) (from_ann "") desk)
hired_Success = omega (arith, hired)

create_below_example :
    (req : CreateUserRequest) × (ok new_hire ≡ ok req)
    × (depth desk.roles req.role_id < depth desk.roles 3)
create_below_example = create_below libs (ok new_hire) (from_ann "") desk refl hired_Success

before_promotion : find (has_key user_id 2) desk.users ≡ some bob
unfolding find
before_promotion = refl

abbrev officer_bob : User
officer_bob = record bob { role_id = 2; updated_at = 100 }

after_promotion :
    find (has_key user_id 2) (Users.update (ok to_officer) (from_ann "2") desk).1.users
    ≡ some officer_bob
unfolding Users.update Users.outranks permits rank_of has_permission get contains role_rank
    rank_from RoleRows.find_by_id statement find UserService.update UserRows.update any_where
    update_where UserRows.assign_columns parse_int magnitude digits_from Audit.log invalidate
after_promotion = refl

update_below_example :
    (officer_bob.role_id ≡ bob.role_id)
    ⊎ ((officer_bob.id ≢ 1) × (depth desk.roles 2 < depth desk.roles 3))
update_below_example =
    update_below (from_ann "2") desk (ok to_officer) 2 bob officer_bob refl (omega arith)
      before_promotion after_promotion

shown : (Alerts.get (from_ann "1") desk).0.status ≡ 200
unfolding Alerts.get permits is_low_rank officer_rank rank_of has_permission get contains role_rank
    rank_from RoleRows.find_by_id RoleRows.find_by_name statement find parse_int magnitude
    digits_from AlertService.get_by_id AlertRows.find_by_id AlertService.list_comments
    AlertRows.list_comments select order_by get_role_by_name
shown = refl

shown_Success : Success (Alerts.get (from_ann "1") desk)
shown_Success = omega (arith, shown)

get-MaySee_example :
    (id : ℤ) × (a : SecurityAlert) × (parse_int "1" ≡ some id)
    × (find (has_key alert_id (to_nat id)) desk.alerts ≡ some a)
    × MaySee (from_ann "1") desk a
get-MaySee_example = get-MaySee (from_ann "1") desk refl shown_Success

abbrev first_row : SecurityAlert
first_row = record (alert 1 1) { severity = 4; description = "" }

listed : (Alerts.list (ok everything) (from_ann "") desk).0.body ≡ alerts 2 (first_row ∷ [])
unfolding Alerts.list permits has_permission get contains AlertService.list AlertRows.list paged
    statement get_role_by_name RoleRows.find_by_name role_rank RoleRows.find_by_id find select
    order_by
listed = refl

list-MaySee_example : All (MaySee (from_ann "") desk) (first_row ∷ [])
list-MaySee_example = list-MaySee (ok everything) (from_ann "") desk 2 (first_row ∷ []) refl listed

raised : (Alerts.create (ok intrusion) (from_ann "") desk).0.status ≡ 201
unfolding Alerts.create permits has_permission get contains UserRows.find_by_id statement find
    AlertService.create AlertRows.create any_where
raised = refl

raised_Success : Success (Alerts.create (ok intrusion) (from_ann "") desk)
raised_Success = omega (arith, raised)

create-Probation_example :
    (req : CreateAlertRequest) × (u : User) × (ok intrusion ≡ ok req)
    × (find (has_key user_id 1) desk.users ≡ some u)
    × ((u.is_probation ≡ false) ⊎ (req.severity < severity_high))
create-Probation_example = create-Probation (ok intrusion) (from_ann "") desk refl raised_Success

handed_over : (Alerts.assign (ok 2) (from_ann "1") desk).0.status ≡ 200
unfolding Alerts.assign permits has_permission get contains parse_int AlertService.get_by_id
    AlertRows.find_by_id statement find UserRows.find_by_id AlertService.assign
    AlertService.validate_assignee AlertRows.update any_where
handed_over = refl

handed_over_Success : Success (Alerts.assign (ok 2) (from_ann "1") desk)
handed_over_Success = omega (arith, handed_over)

assign-Probation_example :
    (id : ℤ) × (assignee : ℕ) × (a : SecurityAlert) × (parse_int "1" ≡ some id)
    × (ok 2 ≡ ok assignee)
    × (find (has_key alert_id (to_nat id)) desk.alerts ≡ some a)
    × ((a.severity < severity_high)
        ⊎ ((u : User) × (find (has_key user_id assignee) desk.users ≡ some u)
            × (u.is_probation ≡ false)))
assign-Probation_example = assign-Probation (ok 2) (from_ann "1") desk refl handed_over_Success

may_write : (has_permission 3 1 "alert:write" desk).0 ≡ ok true
unfolding has_permission get contains
may_write = refl

parsed : parse_int "1" ≡ some (pos 1)
unfolding parse_int magnitude digits_from
parsed = refl

first : find (has_key alert_id 1) desk.alerts ≡ some (record (alert 1 1) { severity = 4 })
unfolding find
first = refl

forbidden : transition_allowed (record (alert 1 1) { severity = 4 }) to_resolved ≡ false
unfolding transition_allowed valid_transitions contains
forbidden = refl

update_transition_example :
    let (answer, v) = Alerts.update (ok to_resolved) (from_ann "1") desk in
    (answer.status ≡ status_internal_error) × (v.alerts ≡ desk.alerts)
update_transition_example =
    update_transition to_resolved (from_ann "1") desk (pos 1) (record (alert 1 1) { severity = 4 })
      refl may_write parsed first (omega arith) (omega arith) forbidden
